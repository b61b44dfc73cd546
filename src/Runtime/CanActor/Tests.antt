-- ===== src/Runtime/CanActor/Tests.antt =====
-- A session on a CAN channel that receives into a ring of one frame, and a batch that fails.
use robot_hal.Prelude.{
  ℕ, ◌+◌, ◌≡◌, ◌↔◌, refl, subst, true, false, none, some, List, [], ◌∷◌, length, arith, ltb,
  if◌then◌else◌, get, decimal, is_ascii, Bool-cases, inl, inr,
}
use robot_hal.Core.Names.{ResourceId, OwnerId, unavailable}
use robot_hal.Core.Error.{HalError, HalResult, ok, err, is_ok, ◌>>=◌, build_error}
use robot_hal.Can.Frame.{CanFrame, ReceivedCanFrame, classic_data, standard, validate_frame}
use robot_hal.Can.Filter.{set_matches}
use robot_hal.Can.Config.{
  CanBitTiming, CanConfigureConfig, CanLinkExpectation, attach, classic, configure,
}
use robot_hal.Can.Adapter.{CanActiveConfig}
use robot_hal.Runtime.CanActor.{
  PendingReceive, accept, compatible_configuration, hear, receive_command, send_batch, service,
  take_receive_result,
}
use robot_hal.Runtime.CanActor.Batches.{Outcome, as_read, batch_answer_arrives, send_batch-Outcome}
use robot_hal.Runtime.CanActor.Turns.{Turn, begin, hears, receives, run, serves, turn}
use robot_hal.Runtime.CanActor.Sharing.{IsMet, compatible_configuration_iff}
use robot_hal.Protocol.Errors.{IsError}
use robot_hal.Protocol.CanRequests.{can_send_response_from_proto, can_send_response_to_proto}

abbrev bus : ResourceId
bus = record { as_str = "can0" }

abbrev owner : OwnerId
owner = record { as_str = "arm" }

abbrev torque : ReceivedCanFrame
torque = record { frame = classic_data (standard 0x123) (1 ∷ 2 ∷ []); timestamp = none }

abbrev speed : ReceivedCanFrame
speed = record { frame = classic_data (standard 0x124) (3 ∷ []); timestamp = none }

abbrev ask : PendingReceive
ask = record { max_frames = 8; deadline = 10 }

abbrev turns : List Turn
turns =
    hears (ok (some torque))
    ∷ hears (ok (some speed))
    ∷ receives 3 ask false
    ∷ receives 4 ask false
    ∷ receives 5 ask false
    ∷ serves 11 false false
    ∷ []

-- The second frame pushes the first out: the caller is told of one loss and then gets the second.
told_once : (run 1 bus (begin owner [] none false) turns).told ≡ 1
unfolding turn hear accept receive_command service take_receive_result set_matches validate_frame
    get decimal
told_once = refl

got_second : (run 1 bus (begin owner [] none false) turns).delivered ≡ speed ∷ []
unfolding turn hear accept receive_command service take_receive_result set_matches validate_frame
got_second = refl

-- The caller that would be told of the loss is gone: the loss is told to nobody.
never_told :
    (run 1 bus
      (begin owner [] none false)
      (hears (ok (some torque)) ∷ hears (ok (some speed)) ∷ receives 3 ask true ∷ [])).unread
    ≡ 1
unfolding turn hear accept receive_command service take_receive_result set_matches validate_frame
    get decimal
never_told = refl

abbrev timing : CanBitTiming
timing = record { bitrate = 500000; sample_point_permill = none; sjw = none }

abbrev open_channel : CanActiveConfig
open_channel = record {
  mode = classic;
  nominal = timing;
  data_timing = none;
  listen_only = false;
  loopback = false;
  clock_domain = "can0";
}

abbrev expected : CanLinkExpectation
expected = record {
  mode = some classic;
  nominal_bitrate = some 500000;
  data_bitrate = none;
  listen_only = none;
  loopback = some false;
}

abbrev wanted : CanConfigureConfig
wanted = record {
  mode = classic;
  nominal = timing;
  data_timing = none;
  listen_only = false;
  loopback = false;
  restart_ms = none;
}

compatible_configuration_iff_example :
    ((compatible_configuration open_channel (attach expected) bus ≡ ok tt)
      ↔ IsMet expected open_channel)
    × (is_ok (compatible_configuration open_channel (configure wanted) bus) ≡ false)
compatible_configuration_iff_example = compatible_configuration_iff open_channel expected wanted bus

abbrev full : HalError
full = build_error "can.send.queue_full" unavailable "can.send" true "no room"

full-IsError : IsError full
unfolding is_ascii
full-IsError = record {
  named = record { filled = refl; short = omega arith; ascii = refl };
  located = record { filled = refl; short = omega arith; ascii = refl };
  resource = tt;
  platform = tt;
  vendor = tt;
  bounded = record { few = omega arith; small = omega arith; legal = tt };
}

-- A channel with room for two frames.
abbrev send_two : ℕ → CanFrame → ℕ × HalResult (Unit {0})
send_two n frame = if ltb n 2 then (n + 1, ok tt) else (n, err full)

send_two-IsError : (n : ℕ) (f : CanFrame) (e : HalError) → (send_two n f).1 ≡ err e → IsError e
send_two-IsError n f e h = elim (Bool-cases (ltb n 2)) [
  | inl room ↦ ground (arith, room, h)
  | inr none_left ↦ subst IsError (ground (arith, none_left, h)) full-IsError
]

abbrev batch : List CanFrame
batch = torque.frame ∷ speed.frame ∷ torque.frame ∷ []

send_batch-Outcome_example : Outcome send_two 0 0 batch (send_batch send_two 0 batch)
send_batch-Outcome_example = send_batch-Outcome send_two 0 batch

batch_answer_arrives_example :
    (can_send_response_to_proto (send_batch send_two 0 batch).1 (length batch) >>= λ m.
    can_send_response_from_proto m (length batch))
    ≡ ok (as_read (send_batch send_two 0 batch).1)
batch_answer_arrives_example =
    batch_answer_arrives send_two 0 batch (omega arith) (omega arith) send_two-IsError
