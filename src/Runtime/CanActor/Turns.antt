-- ===== src/Runtime/CanActor/Turns.antt =====
-- What happens to a session of a CAN actor (crates/robot-hal-runtime/src/can_actor.rs), and the account
-- of its frames.
use robot_hal.Prelude.{
  ℕ, ◌+◌, ◌≤◌, ◌≡◌, Bool, true, false, ◌&&◌, is_some_and, get, decimal, Option, none, some, List,
  [], ◌∷◌, ◌++◌, length, ◌==◌, if◌then◌else◌, string_eq,
}
use robot_hal.Core.Names.{ResourceId, OwnerId}
use robot_hal.Core.Error.{HalError, HalResult, ok, err}
use robot_hal.Core.Lease.{LeaseToken, u64_max}
use robot_hal.Can.Frame.{ReceivedCanFrame, validate_frame}
use robot_hal.Can.Filter.{CanFilterSet, set_matches}
use robot_hal.Runtime.CanActor.{
  ActorSession, PendingReceive, hear, lag_of, new_session, receive_command, replace_filters,
  service,
}

-- What happens to a session, in any order: the channel is polled, a receive is called, a waiting
-- receive is looked at, the filters are replaced. The last `Bool` of the two receives says that the
-- caller is gone when it is answered: `reply.send` then fails, which the actor ignores.
pub data Turn : Type 0 where
  hears : HalResult (Option ReceivedCanFrame) → Turn
  receives : ℕ → PendingReceive → Bool → Turn
  serves : ℕ → Bool → Bool → Turn
  filters_by : CanFilterSet → Turn

-- A session with what has happened to it: the frames that it took, the losses that the channel
-- reported, the frames that callers got, the losses that callers were told, and the frames and losses
-- in answers to callers that were gone.
pub record Trace : Type 0 where
  pub session : ActorSession
  pub arrived : List ReceivedCanFrame
  pub reported : ℕ
  pub delivered : List ReceivedCanFrame
  pub told : ℕ
  pub unread : ℕ

-- The frame that a session takes from a poll: a legal one that its filters let pass.
abbrev pub arrival : HalResult (Option ReceivedCanFrame) → ActorSession → List ReceivedCanFrame
arrival (err e) s = []
arrival (ok none) s = []
arrival (ok (some frame)) s = elim (validate_frame frame.frame) [
  | err e ↦ []
  | ok u ↦ if set_matches s.filters frame.frame then frame ∷ [] else []
]

abbrev loss : HalResult (Option ReceivedCanFrame) → ℕ
loss (ok o) = 0
loss (err e) = if e.name.as_str == "can.receive.lagged" then lag_of e else 0

abbrev pub frames_of : Option (HalResult (List ReceivedCanFrame)) → List ReceivedCanFrame
frames_of (some (ok frames)) = frames
frames_of (some (err e)) = []
frames_of none = []

-- An error that says that a number of frames was lost.
abbrev tells : ℕ → HalError → Bool
tells count e =
    e.name.as_str == "can.receive.lagged"
    && is_some_and (get "dropped_count" e.context.entries) (λ text. text == decimal count)

-- The losses that an answer tells of: what the session has counted, if the error has just this count.
abbrev pub told_by : ActorSession → Option (HalResult (List ReceivedCanFrame)) → ℕ
told_by s (some (err e)) = if tells s.dropped e then s.dropped else 0
told_by s (some (ok frames)) = 0
told_by s none = 0

abbrev pub answer : Trace → Bool → ActorSession × Option (HalResult (List ReceivedCanFrame)) → Trace
answer t false (s, result) = record t {
  session = s;
  delivered = t.delivered ++ frames_of result;
  told = t.told + told_by t.session result;
}
answer t true (s, result) = record t {
  session = s;
  unread = t.unread + (length (frames_of result) + told_by t.session result);
}

unfoldable pub turn : ℕ → ResourceId → Trace → Turn → Trace
unfolding hear receive_command service validate_frame set_matches
turn rx_capacity resource t (hears outcome) = record t {
  session = hear rx_capacity resource outcome t.session;
  arrived = t.arrived ++ arrival outcome t.session;
  reported = t.reported + loss outcome;
}
turn rx_capacity resource t (receives now p gone) =
    answer t gone (receive_command now p resource t.session)
turn rx_capacity resource t (serves now closed gone) =
    answer t gone (service now closed resource t.session)
turn rx_capacity resource t (filters_by filters) = record t {
  session = replace_filters filters t.session;
}

abbrev pub run : ℕ → ResourceId → Trace → List Turn → Trace
run rx_capacity resource t [] = t
run rx_capacity resource t (x ∷ xs) = run rx_capacity resource (turn rx_capacity resource t x) xs

abbrev pub begin : OwnerId → CanFilterSet → Option LeaseToken → Bool → Trace
begin owner filters activation cancelled = record {
  session = new_session owner filters activation cancelled;
  arrived = [];
  reported = 0;
  delivered = [];
  told = 0;
  unread = 0;
}

pub record IsBalanced (rx_capacity : ℕ) (t : Trace) : Type 0 where
  pub bounded : length t.session.received ≤ rx_capacity
  pub counted :
      length t.arrived + t.reported ≤ u64_max
      → length t.arrived + t.reported
        ≡ length t.delivered + length t.session.received + t.told + t.session.dropped + t.unread
  pub ordered :
      t.told + t.session.dropped + t.unread ≡ 0 → t.arrived ≡ t.delivered ++ t.session.received
