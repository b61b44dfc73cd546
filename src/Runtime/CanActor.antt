-- ===== src/Runtime/CanActor.antt =====
-- crates/robot-hal-runtime/src/can_actor.rs: the sessions of the actor that owns a CAN channel, each
-- with a bounded ring of received frames. An `Instant` is a number. What the channel returned, the
-- time and whether a caller is gone are arguments; what is given to `reply.send` is part of the answer.
-- A session without the signals of its clean-up and of the end of its actor.
mod Batches
mod Conserved
mod Answers
mod Turns
mod Sharing
mod Tests
use Prim.Native.Char.{code}
use robot_hal.Prelude.{
  ℕ, ◌+◌, String, Bool, true, false, not, ◌||◌, Option, none, some, List, [], ◌∷◌, ◌++◌, Map, get,
  map, length, take, drop, ltb, leb, eqb, ◌==◌, unwrap_or, is_empty, is_some, is_some_and,
  all_chars, is_ascii_digit, decimal, string_eq, if◌then◌else◌,
}
use robot_hal.Core.Names.{ResourceId, SessionId, OwnerId, unavailable, conflict}
use robot_hal.Core.Error.{HalError, HalResult, ok, err, fail_if, with_context, with_resource_id}
use robot_hal.Core.Lease.{LeaseToken, u64_max}
use robot_hal.Core.Capability.{parse_u64}
use robot_hal.Can.Frame.{CanFrame, CanBatchSendError, ReceivedCanFrame, is_nil, validate_frame}
use robot_hal.Can.Filter.{CanFilterSet, set_matches}
use robot_hal.Can.Config.{CanLinkExpectation, CanOpenConfig, CanMode, attach, configure, is_classic}
use robot_hal.Can.Adapter.{CanActiveConfig}
use robot_hal.Runtime.Errors.{runtime_error}

pub record PendingReceive : Type 0 where
  pub max_frames : ℕ
  pub deadline : ℕ

pub record ActorSession : Type 0 where
  pub owner_id : OwnerId
  pub activation : Option LeaseToken
  pub cancelled : Bool
  pub filters : CanFilterSet
  pub received : List ReceivedCanFrame
  pub dropped : ℕ
  pub receive_error : Option HalError
  pub pending_receive : Option PendingReceive

-- `new_session`
abbrev pub new_session : OwnerId → CanFilterSet → Option LeaseToken → Bool → ActorSession
new_session owner filters activation cancelled = record {
  owner_id = owner;
  activation = activation;
  cancelled = cancelled;
  filters = filters;
  received = [];
  dropped = 0;
  receive_error = none;
  pending_receive = none;
}

-- `u64::saturating_add`
abbrev pub saturating_add : ℕ → ℕ → ℕ
saturating_add a b = if leb (a + b) u64_max then a + b else u64_max

-- `pop_front`
abbrev pub pop_front : List ReceivedCanFrame → List ReceivedCanFrame
pop_front [] = []
pop_front (f ∷ fs) = fs

-- The body of the loop of `fan_out`.
unfoldable pub accept : ℕ → ReceivedCanFrame → ActorSession → ActorSession
unfolding set_matches
accept rx_capacity frame s =
    if not (set_matches s.filters frame.frame)
    then s
    else if eqb (length s.received) rx_capacity
    then record s {
      received = pop_front s.received ++ (frame ∷ []);
      dropped = saturating_add s.dropped 1;
    }
    else record s { received = s.received ++ (frame ∷ []) }

abbrev lagged : ℕ → ResourceId → HalError
lagged dropped resource =
    with_resource_id
      (with_context
        (runtime_error "can.receive.lagged" unavailable "can.receive" true
          "the bounded CAN receive ring dropped oldest frames")
        (record { entries = ("dropped_count", decimal dropped) ∷ [] }))
      resource

-- `take_receive_result`; `take` and `drop` stop at the end of the ring.
unfoldable pub take_receive_result :
    ActorSession → ℕ → ResourceId → ActorSession × Option (HalResult (List ReceivedCanFrame))
take_receive_result s max_frames resource =
    if ltb 0 s.dropped
    then (record s { dropped = 0 }, some (err (lagged s.dropped resource)))
    else elim s.receive_error [
      | some e ↦ (record s { receive_error = none }, some (err (with_resource_id e resource)))
      | none ↦ if is_nil s.received then (s, none) else (
        record s { received = drop max_frames s.received },
        some (ok (take max_frames s.received)),
      )
    ]

-- What is done with a receive: it is answered, times out, or waits.
abbrev pub settle :
    ℕ
    → PendingReceive
    → ActorSession × Option (HalResult (List ReceivedCanFrame))
    → ActorSession × Option (HalResult (List ReceivedCanFrame))
settle now p (s, some result) = (s, some result)
settle now p (s, none) =
    if leb p.deadline now then (s, some (ok [])) else (record s { pending_receive = some p }, none)

-- `CanCommand::Receive` of `execute_command`, for a session of the actor. It does not look whether the
-- caller still waits: what it gives to `reply.send` is lost when the caller is gone.
unfoldable pub receive_command :
    ℕ
    → PendingReceive
    → ResourceId
    → ActorSession
    → ActorSession × Option (HalResult (List ReceivedCanFrame))
unfolding take_receive_result
receive_command now p resource s =
    if is_some s.pending_receive
    then (
      s,
      some (
          err (
            with_resource_id
              (runtime_error "runtime.queue.full" unavailable "can.receive" true
                "the bounded CAN queue has reached its 1-item capacity")
              resource)),
    )
    else settle now p (take_receive_result s p.max_frames resource)

-- The body of the loop of `service_pending_receives`.
unfoldable pub service :
    ℕ → Bool → ResourceId → ActorSession → ActorSession × Option (HalResult (List ReceivedCanFrame))
unfolding take_receive_result
service now closed resource s = elim s.pending_receive [
  | none ↦ (s, none)
  | some p ↦
      if closed
      then (record s { pending_receive = none }, none)
      else settle now p
          (take_receive_result (record s { pending_receive = none }) p.max_frames resource)
]

-- `CanCommand::ReplaceFilters`
abbrev pub replace_filters : CanFilterSet → ActorSession → ActorSession
replace_filters filters s = record s { filters = filters }

-- `parse::<u64>` of any text: a sign may stand before the digits.
abbrev unsigned : String → String
unsigned String.[] = String.[]
unsigned (String.◌∷◌ x s) = if eqb (code x) b'+' then s else String.◌∷◌ x s

unfoldable pub parse_count : String → Option ℕ
unfolding parse_u64
parse_count text =
    let digits = unsigned text in
    if is_empty digits || not (all_chars is_ascii_digit digits) then none else parse_u64 digits

-- The count of a lag that the channel reports; 1 when it cannot be read.
abbrev pub lag_of : HalError → ℕ
lag_of e = elim (get "dropped_count" e.context.entries) [
  | none ↦ 1
  | some text ↦ unwrap_or 1 (parse_count text)
]

-- The match of `run_actor` on what the channel received, for one session.
unfoldable pub hear :
    ℕ → ResourceId → HalResult (Option ReceivedCanFrame) → ActorSession → ActorSession
unfolding accept validate_frame
hear rx_capacity resource (ok none) s = s
hear rx_capacity resource (ok (some frame)) s = elim (validate_frame frame.frame) [
  | ok u ↦ accept rx_capacity frame s
  | err e ↦ record s { receive_error = some (with_resource_id e resource) }
]
hear rx_capacity resource (err e) s =
    if e.name.as_str == "can.receive.lagged"
    then record s { dropped = saturating_add s.dropped (lag_of e) }
    else record s { receive_error = some e }

-- The loops of `run_actor` over its sessions.
hear_all :
    ℕ
    → ResourceId
    → HalResult (Option ReceivedCanFrame)
    → Map SessionId ActorSession
    → Map SessionId ActorSession
unfolding hear
hear_all rx_capacity resource outcome sessions =
    map (λ (id, s). (id, hear rx_capacity resource outcome s)) sessions

abbrev same_mode : CanMode → CanMode → Bool
same_mode a b = if is_classic a then is_classic b else not (is_classic b)

abbrev same_flag : Bool → Bool → Bool
same_flag a b = if a then b else not b

-- `expectation_mismatch`
unfoldable pub expectation_mismatch : CanLinkExpectation → CanActiveConfig → Bool
expectation_mismatch e active =
    is_some_and e.mode (λ m. not (same_mode m active.mode))
    || (is_some_and e.nominal_bitrate (λ b. not (eqb b active.nominal.bitrate))
        || (is_some_and e.data_bitrate
              (λ b. not (is_some_and active.data_timing (λ timing. eqb timing.bitrate b)))
            || (is_some_and e.listen_only (λ l. not (same_flag l active.listen_only))
                || is_some_and e.loopback (λ l. not (same_flag l active.loopback)))))

abbrev is_mismatch : CanActiveConfig → CanOpenConfig → Bool
is_mismatch active (attach e) = expectation_mismatch e active
is_mismatch active (configure c) = true

-- `compatible_configuration`
unfoldable pub compatible_configuration :
    CanActiveConfig → CanOpenConfig → ResourceId → HalResult (Unit {0})
unfolding expectation_mismatch
compatible_configuration active requested resource = fail_if (is_mismatch active requested) (
    with_resource_id
      (runtime_error "can.configuration.mismatch" conflict "can.open" false
        "the requested CAN configuration is incompatible with the live shared actor")
      resource)

-- A channel is a state and what `CanChannel::send` makes of it.
module _ {ℓ} {Channel : Type ℓ} (send : Channel → CanFrame → Channel × HalResult (Unit {0})) where
  -- The loop of `CanCommand::SendBatch`; `none` stands for `Ok(())`.
  unfoldable pub send_from : Channel → ℕ → List CanFrame → Channel × Option CanBatchSendError
  send_from channel committed [] = (channel, none)
  send_from channel committed (frame ∷ frames) =
      let (channel', result) = send channel frame in
      let rest = send_from channel' (committed + 1) frames in
      elim result [
        | ok u ↦ rest
        | err e ↦ (channel', some (record { error = e; committed = committed }))
      ]

  unfoldable pub send_batch : Channel → List CanFrame → Channel × Option CanBatchSendError
  unfolding send_from
  send_batch channel frames = send_from channel 0 frames
