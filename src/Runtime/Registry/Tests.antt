-- ===== src/Runtime/Registry/Tests.antt =====
-- Runs of crates/robot-hal-runtime/src/registry.rs with numbers for actors.
use robot_hal.Prelude.{
  ℕ, ◌≡◌, ◌↔◌, refl, true, false, none, some, List, [], ◌∷◌, get, insert, remove,
}
use robot_hal.Core.Names.{
  ResourceId, SessionId, OwnerId, LeaseId, control, session_id_eq, eq_resource_id, eq_session_id,
  eq_owner_id, eq_lease_id,
}
use robot_hal.Core.Lease.{LeaseToken, eq_lease_token}
use robot_hal.Core.Error.{ok, is_ok, error_name}
use robot_hal.Runtime.Events.{publish}
use robot_hal.Runtime.Lifecycle.{active, commit_open}
use robot_hal.Runtime.LeaseTable.{reserve_control, commit, release, current_generation}
use robot_hal.Runtime.Registry.{enqueue, reserve_open, finish_open, finish_close, close_session}
use robot_hal.Runtime.Sessions.{
  SessionEntry, SendOutcome, queued, SerialCommand, read, already_closed,
}
use robot_hal.Runtime.Registry.Backing.{IsConsistent}
use robot_hal.Runtime.Registry.History.{
  Op, reserving, opening, step, run, start, run-start-IsConsistent, one_session_per_resource,
  enqueue_iff,
}
use robot_hal.Runtime.Registry.Numbering.{IsNumbered, run-start-IsNumbered}
use robot_hal.Runtime.Registry.Closed.{RemembersClosed}
use robot_hal.Runtime.Registry.Closing.{closed_memory, close_again}

abbrev arm : ResourceId
arm = record { as_str = "serial:arm" }

abbrev first_session : SessionId
first_session = record { as_str = "session-1" }

abbrev alice : OwnerId
alice = record { as_str = "alice" }

abbrev first_lease_id : LeaseId
first_lease_id = record { as_str = "lease-1" }

abbrev first_token : LeaseToken
first_token = record { lease_id = first_lease_id; generation = 1; mode = control }

abbrev opened : List (Op ℕ)
opened = reserving arm first_session alice first_lease_id ∷ opening first_session 7 ∷ []

abbrev active_entry : SessionEntry ℕ
active_entry = record {
  resource_id = arm;
  owner_id = alice;
  lease = first_token;
  state = active;
  actor = some 7;
  open_cancel = false;
}

abbrev always_queued : ℕ → SerialCommand → SendOutcome
always_queued actor command = queued

session_active : get first_session (run (start ℕ) opened).registry.sessions ≡ some active_entry
unfolding run step reserve_open finish_open commit_open reserve_control commit current_generation
    publish get insert remove eq_resource_id eq_session_id eq_owner_id eq_lease_id eq_lease_token
session_active = refl

session_exposed :
    (release (run (start ℕ) opened).registry.leases active_entry.resource_id first_session).1 ≡ true
unfolding run step reserve_open finish_open commit_open reserve_control commit current_generation
    release publish get insert remove eq_resource_id eq_session_id eq_owner_id eq_lease_id
    eq_lease_token
session_exposed = refl

none_closed : get first_session (run (start ℕ) opened).registry.closed_sessions ≡ none
unfolding run step reserve_open finish_open commit_open reserve_control commit current_generation
    publish get insert remove eq_resource_id eq_session_id eq_owner_id eq_lease_id eq_lease_token
none_closed = refl

run-start-IsConsistent_example : IsConsistent (run (start ℕ) opened).registry
run-start-IsConsistent_example = run-start-IsConsistent opened

one_session_per_resource_example : first_session ≡ first_session
one_session_per_resource_example =
    one_session_per_resource opened first_session first_session active_entry active_entry
      session_active session_active refl

enqueue_iff_example :
    let reg = (run (start ℕ) opened).registry in
    (is_ok (enqueue always_queued reg first_session first_token (read 8) "serial.read") ≡ true) ↔ (
      (entry : SessionEntry ℕ) × (actor : ℕ) × (get first_session reg.sessions ≡ some entry)
      × (entry.lease ≡ first_token)
      × (entry.state ≡ active)
      × (entry.actor ≡ some actor)
      × (always_queued actor (read 8) ≡ queued))
enqueue_iff_example =
    enqueue_iff always_queued opened first_session first_token (read 8) "serial.read"

closed_memory_example : RemembersClosed (run (start ℕ) opened).registry
closed_memory_example = closed_memory opened

close_again_example :
    let reg' =
      (finish_close
        (run (start ℕ) opened).registry
        first_session
        (run (start ℕ) opened).events
        (ok tt)).0 in
    (close_session reg' first_session active_entry.lease ≡ (reg', ok already_closed))
    × (error_name
          (enqueue always_queued reg' first_session active_entry.lease (read 8) "serial.read")
        ≡ some "runtime.session.closed")
close_again_example =
    close_again (run (start ℕ) opened).registry first_session active_entry
      (run (start ℕ) opened).events (ok tt) always_queued (read 8) "serial.read" session_active
      session_exposed none_closed

run-start-IsNumbered_example : IsNumbered (run (start ℕ) opened).events
run-start-IsNumbered_example = run-start-IsNumbered opened
