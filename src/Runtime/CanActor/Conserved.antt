-- ===== src/Runtime/CanActor/Conserved.antt =====
-- The receive ring of a session of a CAN actor (crates/robot-hal-runtime/src/can_actor.rs): what
-- becomes of the frames that arrive.
use robot_hal.Prelude.{string_eq}
