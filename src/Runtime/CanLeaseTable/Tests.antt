-- ===== src/Runtime/CanLeaseTable/Tests.antt =====
-- Runs of crates/robot-hal-runtime/src/can_lease_table.rs on one CAN resource.
use robot_hal.Prelude.{
  ◌≤◌, ◌<◌, ◌≡◌, ◌↔◌, refl, arith, true, false, some, List, [], ◌∷◌, get, insert, remove,
}
use robot_hal.Core.Names.{
  ResourceId, SessionId, OwnerId, LeaseId, observe, control, resource_id_eq, session_id_eq,
  eq_resource_id, eq_session_id, eq_owner_id, eq_lease_id,
}
use robot_hal.Core.Lease.{LeaseToken, eq_lease_token, u64_max}
use robot_hal.Core.Error.{ok, is_ok}
use robot_hal.Runtime.CanLeaseTable.{
  reserve, reserve_in, commit, commit_in, release, release_in, validate,
}
use robot_hal.Runtime.CanLeases.{CanLeaseTable, CanReservation, PendingEntry}
use robot_hal.Runtime.CanLeaseTable.Steps.{Op, reserving, committing, leases_at, step}
use robot_hal.Runtime.CanLeaseTable.Exclusion.{IsValid, run, run_empty-IsExclusive}
use robot_hal.Runtime.CanLeaseTable.Fencing.{IsIssued, run_empty-IsIssued, release_spends}
use robot_hal.Runtime.CanLeaseTable.Outcomes.{Compatible, IsUnknown, rank, reserve_iff}
use robot_hal.Runtime.CanLeaseTable.Opened.{opened_lease_serves}

abbrev bus : ResourceId
bus = record { as_str = "can:can0" }

abbrev reader : SessionId
reader = record { as_str = "session-reader" }

abbrev driver : SessionId
driver = record { as_str = "session-driver" }

abbrev alice : OwnerId
alice = record { as_str = "alice" }

abbrev bob : OwnerId
bob = record { as_str = "bob" }

abbrev first_id : LeaseId
first_id = record { as_str = "reservation-1" }

abbrev second_id : LeaseId
second_id = record { as_str = "lease-1" }

abbrev driving : CanReservation
driving = record {
  resource_id = bus;
  session_id = driver;
  owner_id = alice;
  reservation_id = first_id;
  mode = control;
}

abbrev no_resources : CanLeaseTable
no_resources = record { resources = [] }

abbrev promised : List Op
promised = reserving bus driver alice control first_id ∷ []

abbrev opened : List Op
opened = reserving bus driver alice control first_id ∷ committing driving second_id ∷ []

abbrev driver_token : LeaseToken
driver_token = record { lease_id = second_id; generation = 1; mode = control }

run_empty-IsExclusive_example : IsValid (run no_resources opened)
run_empty-IsExclusive_example = run_empty-IsExclusive opened

run_empty-IsIssued_example : IsIssued (run no_resources opened)
run_empty-IsIssued_example = run_empty-IsIssued opened

abbrev promise : PendingEntry
promise = record { reservation_id = first_id; owner_id = alice; mode = control }

driver_pending : get driver (leases_at (run no_resources promised) bus).pending ≡ some promise
unfolding run step reserve reserve_in get insert remove eq_resource_id eq_session_id
driver_pending = refl

driver_released : (release (run no_resources opened) bus driver driver_token).1 ≡ true
unfolding run step reserve reserve_in commit commit_in release release_in get insert remove
    eq_resource_id eq_session_id eq_owner_id eq_lease_id eq_lease_token
driver_released = refl

release_spends_example :
    is_ok (
      validate
        (run (release (run no_resources opened) bus driver driver_token).0 opened)
        bus
        driver
        alice
        driver_token
        control
        "can.transmit")
    ≡ false
release_spends_example =
    release_spends opened opened bus driver driver alice driver_token control "can.transmit"
      driver_released

reserve_iff_example :
    (is_ok (reserve (run no_resources opened) bus reader alice observe first_id).1 ≡ true) ↔ (
      IsUnknown (leases_at (run no_resources opened) bus) reader
      × Compatible observe (leases_at (run no_resources opened) bus))
reserve_iff_example = reserve_iff (run no_resources opened) bus reader alice observe first_id

driver_reserved : (reserve no_resources bus driver alice control first_id).1 ≡ ok driving
unfolding reserve reserve_in get
driver_reserved = refl

no_generation : (leases_at no_resources bus).last_generation < u64_max
unfolding get
no_generation = omega arith

opened_lease_serves_example :
    let t' = (reserve no_resources bus driver alice control first_id).0 in
    ((commit t' driving second_id).1 ≡ ok driver_token)
    × ((validate (commit t' driving second_id).0 bus driver alice driver_token observe "can.receive"
          ≡ ok tt)
        ↔ (rank observe ≤ rank control))
    × ((is_ok (commit t' (record driving { owner_id = bob }) second_id).1 ≡ true)
        ↔ ((first_id ≡ first_id) × (bob ≡ alice) × (control ≡ control)))
unfolding get
opened_lease_serves_example =
    opened_lease_serves no_resources bus driver alice bob control observe control first_id first_id
      second_id driving "can.receive" driver_reserved no_generation
