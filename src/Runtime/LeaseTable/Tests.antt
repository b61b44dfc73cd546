-- ===== src/Runtime/LeaseTable/Tests.antt =====
-- Runs of crates/robot-hal-runtime/src/lease_table.rs on one resource.
use robot_hal.Prelude.{
  ◌≡◌, ◌↔◌, refl, Bool, true, false, none, some, List, [], ◌∷◌, arith, get, insert, remove,
  if◌then◌else◌, ◌==◌, ◌+◌, ◌<◌,
}
use robot_hal.Core.Names.{
  ResourceId, SessionId, OwnerId, LeaseId, control, resource_id_eq, eq_resource_id, eq_session_id,
  eq_lease_id,
}
use robot_hal.Core.Lease.{LeaseToken, eq_lease_token, u64_max}
use robot_hal.Core.Error.{ok, is_ok}
use robot_hal.Runtime.LeaseTable.{
  ActiveLease, empty, reserve_control, commit, release, validate, current_generation,
}
use robot_hal.Runtime.LeaseTable.Slot.{
  slot, Op, reserving, committing, releasing, step, slot_step, step_refines,
}
use robot_hal.Runtime.LeaseTable.Invariant.{IsValid, run, run_empty-IsValid}
use robot_hal.Runtime.LeaseTable.Fencing.{release_fences}
use robot_hal.Runtime.LeaseTable.Outcomes.{validate_iff, release_after_reserve}

abbrev arm : ResourceId
arm = record { as_str = "serial:arm" }

abbrev wrist : ResourceId
wrist = record { as_str = "serial:wrist" }

abbrev first_session : SessionId
first_session = record { as_str = "session-1" }

abbrev alice : OwnerId
alice = record { as_str = "alice" }

abbrev first_lease_id : LeaseId
first_lease_id = record { as_str = "lease-1" }

abbrev first_token : LeaseToken
first_token = record { lease_id = first_lease_id; generation = 1; mode = control }

abbrev opened : List (ResourceId × Op)
opened =
    (arm, reserving first_session alice first_lease_id)
    ∷ (arm, committing first_session first_token)
    ∷ []

abbrev held : ActiveLease
held = record {
  session_id = first_session;
  owner_id = alice;
  token = first_token;
  committed = true;
}

opened-held : get arm (run empty opened).active ≡ some held
unfolding run step reserve_control current_generation commit get insert remove eq_resource_id
    eq_session_id eq_lease_id eq_lease_token
opened-held = refl

release_fences_example :
    is_ok (
      validate
        (run (release (run empty opened) arm held.session_id).0 opened)
        arm
        first_session
        alice
        held.token
        "serial.read")
    ≡ false
release_fences_example =
    release_fences (run empty opened) arm held opened first_session alice "serial.read"
      (run_empty-IsValid opened) opened-held refl

step_refines_example : slot (step (run empty opened) arm (releasing first_session)) wrist ≡ (
    if arm == wrist
    then slot_step (slot (run empty opened) arm) (releasing first_session)
    else slot (run empty opened) wrist)
step_refines_example = step_refines (run empty opened) arm wrist (releasing first_session)

run_empty-IsValid_example : IsValid (run empty opened)
run_empty-IsValid_example = run_empty-IsValid opened

validate_iff_example :
    (validate (run empty opened) arm first_session alice first_token "serial.read" ≡ ok tt) ↔ (
      (committed : Bool) × (get arm (run empty opened).active
        ≡ some (record {
          session_id = first_session;
          owner_id = alice;
          token = first_token;
          committed = committed;
        })))
validate_iff_example =
    validate_iff (run empty opened) arm first_session alice first_token "serial.read"
      (run_empty-IsValid opened)

room : current_generation empty arm < u64_max
unfolding current_generation get
room = omega arith

nothing_held : get arm empty.active ≡ none
unfolding get
nothing_held = refl

release_after_reserve_example :
    let t' = (reserve_control empty arm first_session alice first_lease_id).0 in
    let token : LeaseToken = record {
      lease_id = first_lease_id;
      generation = current_generation empty arm + 1;
      mode = control;
    } in
    (slot (release t' arm first_session).0 wrist ≡ slot empty wrist)
    × (slot (release (commit t' arm first_session token).0 arm first_session).0 arm
        ≡ record { generation = current_generation empty arm + 1; lease = none })
release_after_reserve_example =
    release_after_reserve empty arm wrist first_session alice first_lease_id nothing_held room
