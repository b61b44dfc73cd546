-- ===== src/Runtime/Sessions.antt =====
-- The sessions of crates/robot-hal-runtime/src/registry.rs: their entries, the commands for an actor
-- (serial_actor.rs) and the errors. An actor is a handle to a task and its queue, which the tokio
-- library implements: its type is a parameter.
use robot_hal.Prelude.{ℕ, String, Bool, true, false, not, Option, List, Map, ltb, ◌==◌}
use robot_hal.Core.Names.{
  ResourceId, SessionId, OwnerId, conflict, internal, not_found, unavailable, resource_id_eq,
  session_id_eq, owner_id_eq,
}
use robot_hal.Core.Lease.{LeaseToken, lease_token_eq}
use robot_hal.Core.Error.{HalError, HalResult, ok, err, ◌>>◌, fail_if, with_resource_id}
use robot_hal.Runtime.Errors.{runtime_error}
use robot_hal.Runtime.LeaseTable.{LeaseTable}
use robot_hal.Runtime.Lifecycle.{SessionLifecycle}

abbrev pub closed_session_capacity : ℕ
closed_session_capacity = 256

pub record SessionEntry (Actor : Type 0) : Type 0 where
  pub resource_id : ResourceId
  pub owner_id : OwnerId
  pub lease : LeaseToken
  pub state : SessionLifecycle
  pub actor : Option Actor
  pub open_cancel : Bool

pub record Registry (Actor : Type 0) : Type 0 where
  pub leases : LeaseTable
  pub sessions : Map SessionId (SessionEntry Actor)
  pub closed_sessions : Map SessionId LeaseToken
  pub closed_order : List SessionId

-- What `mpsc::Sender::try_send` answers.
pub data SendOutcome : Type 0 where
  queued full disconnected : SendOutcome

pub data SerialCommand : Type 0 where
  read : ℕ → SerialCommand
  write : List ℕ → SerialCommand
  flush : SerialCommand
  set_control_lines : Bool → Bool → SerialCommand

pub data CloseAction (Actor : Type 0) : Type 0 where
  already_closed : CloseAction Actor
  wait : Actor → ResourceId → CloseAction Actor

pub record RevokeTarget (Actor : Type 0) : Type 0 where
  pub actor : Option Actor
  pub session_id : SessionId
  pub resource_id : ResourceId

abbrev pub session_not_found : String → HalError
session_not_found operation =
    runtime_error "runtime.session.not_found" not_found operation false
      "the serial session ID is unknown"

abbrev pub session_closed_error : String → HalError
session_closed_error operation =
    runtime_error "runtime.session.closed" conflict operation false "the serial session is closed"

unfoldable pub validate_closed_lease : LeaseToken → LeaseToken → String → HalResult (Unit {0})
validate_closed_lease closed supplied operation = do
  fail_if (ltb supplied.generation closed.generation) (
      runtime_error "runtime.lease.stale_generation" conflict operation false
        "the supplied lease generation predates the closed session generation")
  fail_if (not (supplied == closed)) (
      runtime_error "runtime.lease.invalid_token" conflict operation false
        "the supplied lease token does not match the closed session")
  ok tt

-- `ActorHandle::try_enqueue` of serial_actor.rs, from the answer of the channel.
abbrev pub try_enqueue : SendOutcome → String → HalResult (Unit {0})
try_enqueue queued operation = ok tt
try_enqueue full operation = err (
    runtime_error "runtime.queue.full" unavailable operation true
      "the bounded serial actor command queue has reached its 64-command capacity")
try_enqueue disconnected operation = err (session_closed_error operation)

abbrev pub no_actor_error : ResourceId → String → String → HalError
no_actor_error r operation message =
    with_resource_id (runtime_error "runtime.actor.unavailable" internal operation false message) r
