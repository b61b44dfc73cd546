-- ===== src/Runtime/GpioManager/Tests.antt =====
-- A group of GPIO lines is opened, its worker takes too long, and the open is given up.
use robot_hal.Prelude.{
  ℕ, ◌≡◌, ◌≢◌, refl, true, false, Option, none, some, [], ◌∷◌, ◌++◌, get, insert, remove, nat_eq,
  arith, eq_iff,
}
use robot_hal.Core.Names.{
  ResourceId, SessionId, OwnerId, LeaseId, control, resource_id_eq, session_id_eq, eq_session_id,
}
use robot_hal.Core.Error.{HalResult, err, is_ok}
use robot_hal.Runtime.GpioManager.{
  Entry, Manager, Pending, Worker, finish_open, quarantine_open, reserve_open, spawn_worker,
}
use robot_hal.Runtime.GpioManager.Calls.{revoke_loop}
use robot_hal.Runtime.GpioManager.Steps.{
  IsNew, Reach, finishes_open, here, next, reserves, spawns, start,
}
use robot_hal.Runtime.GpioManager.Exclusive.{held_resource_refused, one_holder_per_resource}
use robot_hal.Runtime.GpioManager.Revoke.{LeftAlone, revoke_abandons}
use robot_hal.Runtime.LeaseTable.{conflict_error, reserve_control}

abbrev chip : ResourceId
chip = record { as_str = "gpiochip0" }

abbrev session : SessionId
session = record { as_str = "session-1" }

abbrev other : SessionId
other = record { as_str = "session-2" }

abbrev owner : OwnerId
owner = record { as_str = "owner" }

abbrev lease_id : LeaseId
lease_id = record { as_str = "lease-1" }

abbrev reserved : Manager
reserved = (reserve_open start owner chip session lease_id).0

abbrev pending : Pending
pending = record {
  resource = chip;
  owner = owner;
  lease = record { lease_id = lease_id; generation = 1; mode = control };
  worker = none;
}

abbrev running : Manager
running = spawn_worker reserved session pending 0

abbrev waited : Pending
waited = record pending { worker = some 0 }

abbrev given_up : Manager
given_up = (finish_open running session waited 0 0 "5s").0

nothing : IsNew start session
unfolding get
nothing = (refl, refl, λ w k at. absurd (ground (arith, at)), λ n t at. absurd (ground (arith, at)))

was_reserved : get session reserved.opening ≡ some pending
unfolding finish_open quarantine_open spawn_worker reserve_open reserve_control eq_session_id get
    insert remove
was_reserved = refl

no_worker : get 0 reserved.workers ≡ none
unfolding finish_open quarantine_open spawn_worker reserve_open reserve_control eq_session_id get
    insert remove
no_worker = refl

was_waiting : get session running.opening ≡ some waited
unfolding finish_open quarantine_open spawn_worker reserve_open reserve_control eq_session_id get
    insert remove
was_waiting = refl

no_task : get 0 running.tasks ≡ none
unfolding finish_open quarantine_open spawn_worker reserve_open reserve_control eq_session_id get
    insert remove
no_task = refl

Reach-running : Reach running
Reach-running =
    next (next here (reserves start owner chip session lease_id nothing))
      (spawns reserved session pending 0 was_reserved refl no_worker)

Reach-given_up : Reach given_up
Reach-given_up =
    next Reach-running (finishes_open running session waited 0 0 "5s" was_waiting refl no_task)

abbrev worker : Worker
worker = record {
  resource = chip;
  session = session;
  answer = none;
  closing = true;
  completion = none;
}

abbrev starting : Worker
starting = record worker { closing = false }

is_starting : get 0 running.workers ≡ some starting
unfolding finish_open quarantine_open spawn_worker reserve_open reserve_control eq_session_id get
    insert remove
is_starting = refl

is_told : get 0 given_up.workers ≡ some worker
unfolding finish_open quarantine_open spawn_worker reserve_open reserve_control eq_session_id get
    insert remove
is_told = refl

one_holder_per_resource_example : ◌≡◌ {A = ℕ} 0 0
one_holder_per_resource_example =
    one_holder_per_resource 0 0 starting starting Reach-running is_starting is_starting (refl, tt)
      (refl, tt) refl

held_resource_refused_example :
    reserve_open given_up owner chip other lease_id ≡ (given_up, err (conflict_error chip))
held_resource_refused_example =
    held_resource_refused 0 worker owner other lease_id Reach-given_up is_told (refl, tt)

abbrev entry : Entry
entry = record { resource = chip; owner = owner; worker = 0 }

abbrev third : SessionId
third = record { as_str = "session-3" }

abbrev slow : SessionId → Option (HalResult (Unit {0}))
slow id = none

distinct : session ≢ third
distinct e = ground (arith, e, eq_iff "session-1" "session-3")

revoke_abandons_example :
    let (m', result) =
      revoke_loop given_up 1 "5s" slow ([] ++ ((session, entry) ∷ (third, entry) ∷ [])) in
    (is_ok result ≡ false) × LeftAlone third given_up m'
revoke_abandons_example =
    revoke_abandons given_up 1 "5s" slow [] ((third, entry) ∷ []) session third entry tt
      (λ e. ground (arith, e)) tt distinct
