-- ===== src/Runtime/GpioManager/Exclusive.antt =====
-- Any history of the manager of GPIO sessions (crates/robot-hal-runtime/src/gpio_manager.rs): at most
-- one worker may hold the lines of a resource, and the resource stays reserved for it.
use robot_hal.Prelude.{
  ℕ, ◌≡◌, refl, sym, ◌∙◌, true, Option, none, some, get, insert, get-insert, get-remove, nat_eq,
  arith, ==_iff, Option-cases, inl, inr, subst,
}
use robot_hal.Core.Names.{ResourceId, SessionId, OwnerId, LeaseId, session_id_eq, resource_id_eq}
use robot_hal.Core.Error.{HalResult, ok, err}
use robot_hal.Runtime.GpioManager.{
  Manager, Worker, reap, release_lease, release_reservation, reserve_open, spawn_failed,
}
use robot_hal.Runtime.GpioManager.Calls.{
  begin_close, begin_revoke, end_close, end_round, is_finished, owned, run_task, session_worker,
  worker_ends,
}
use robot_hal.Runtime.GpioManager.Steps.{
  Reach, Step, answers, asks, begins_close, begins_revoke, begins_round, ends, ends_close,
  ends_round, finishes_open, here, next, reserves, runs_task, spawn_fails, spawns,
}
use robot_hal.Runtime.GpioManager.Safety.{HeldBy, Holds, IsGuarded, MayHold}
use robot_hal.Runtime.GpioManager.Changes.{add_task-IsGuarded}
use robot_hal.Runtime.GpioManager.Guard.{reserve-IsGuarded, spawn-IsGuarded, start-IsGuarded}
use robot_hal.Runtime.GpioManager.Endings.{finish_open-IsGuarded, quit-IsGuarded}
use robot_hal.Runtime.GpioManager.Turns.{
  answers-IsGuarded, Asked-IsGuarded, close-IsGuarded, close_all-IsGuarded, ends-IsGuarded,
  finish_session-IsGuarded, Idle-of_finished, run_task-IsGuarded, session_worker-Asked,
}
use robot_hal.Runtime.LeaseTable.{ActiveLease, LeaseTable, conflict_error, release, reserve_control}

Step-IsGuarded : {m m' : Manager} → Step m m' → IsGuarded m → IsGuarded m'
unfolding end_close end_round begin_revoke begin_close spawn_failed
Step-IsGuarded (reserves m owner resource id fresh new) g =
    reserve-IsGuarded m owner resource id fresh g new
Step-IsGuarded (spawn_fails m id p e at idle) g =
    quit-IsGuarded m p.resource id g (λ w k here is. absurd (g.unspawned id p at idle w k here is))
Step-IsGuarded (spawns m id p w at idle free) g = spawn-IsGuarded m id p w g at idle free
Step-IsGuarded (finishes_open m id p w n timeout at is free) g =
    finish_open-IsGuarded m id p w n timeout g (g.spawned id p w at is)
Step-IsGuarded (asks m id lease operation) g =
    Asked-IsGuarded id (session_worker m id lease operation)
      (session_worker-Asked m id lease operation g)
Step-IsGuarded (begins_close m id lease n free) g =
    close-IsGuarded id n (session_worker m id lease "gpio.close")
      (session_worker-Asked m id lease "gpio.close" g)
Step-IsGuarded (ends_close m id w resource timeout result owns done) g =
    finish_session-IsGuarded m id g (Idle-of_finished m id w g owns done)
Step-IsGuarded (begins_revoke m owner) g = close_all-IsGuarded (owned owner m.sessions) m g
Step-IsGuarded (begins_round m id w n owns shut free) g =
    add_task-IsGuarded m n (reap id w) g owns shut
Step-IsGuarded (ends_round m id w resource timeout (ok u) owns done) g =
    finish_session-IsGuarded m id g (Idle-of_finished m id w g owns done)
Step-IsGuarded (ends_round m id w resource timeout (err e) owns done) g = g
Step-IsGuarded (runs_task m n) g = run_task-IsGuarded m n g
Step-IsGuarded (answers m w k result at fresh runs) g =
    answers-IsGuarded m w k result g at fresh runs
Step-IsGuarded (ends m w k result at runs) g = ends-IsGuarded m w k result g at

Reach-IsGuarded : {m : Manager} → Reach m → IsGuarded m
Reach-IsGuarded here = start-IsGuarded
Reach-IsGuarded (next r s) = Step-IsGuarded s (Reach-IsGuarded r)

same_holder : (o : Option ActiveLease) (id j : SessionId) → HeldBy id o → HeldBy j o → id ≡ j
same_holder none id j a b = absurd a
same_holder (some lease) id j a b = sym a ∙ b

-- After any history of opens, closes, revocations, background tasks and workers, in any order: two
-- workers that may hold the lines of one resource are the same worker. A worker may hold them from
-- its start until it has ended or has answered that it could not open them.
pub one_holder_per_resource :
    {m : Manager} (w v : ℕ) (k j : Worker)
    → Reach m
    → get w m.workers ≡ some k
    → get v m.workers ≡ some j
    → MayHold k
    → MayHold j
    → k.resource ≡ j.resource
    → w ≡ v
one_holder_per_resource {m} w v k j r at at' may may' e =
    let g = Reach-IsGuarded r in
    let held = subst (λ (x : ResourceId). Holds m.leases x k.session) e (g.held w k at may) in
    g.alone w v k j at at'
      (same_holder (get j.resource m.leases.active) k.session j.session held (g.held v j at' may'))

conflicts :
    (t : LeaseTable) (r : ResourceId) (j id : SessionId) (owner : OwnerId) (fresh : LeaseId)
    → Holds t r j
    → reserve_control t r id owner fresh ≡ (t, err (conflict_error r))
unfolding reserve_control
conflicts t r j id owner fresh h = elim (Option-cases (get r t.active)) [
  | inl e ↦ ground (arith, h, e)
  | inr (lease, e) ↦ rw (e, reserve_control) refl
]

-- After any history: while a worker may hold the lines of a resource, every attempt to open the
-- resource for another session is answered with a lease conflict and changes nothing. This covers
-- the worker of an open or a close that was given up because it took too long.
pub held_resource_refused :
    {m : Manager} (w : ℕ) (k : Worker) (owner : OwnerId) (id : SessionId) (fresh : LeaseId)
    → Reach m
    → get w m.workers ≡ some k
    → MayHold k
    → reserve_open m owner k.resource id fresh ≡ (m, err (conflict_error k.resource))
unfolding reserve_open
held_resource_refused {m} w k owner id fresh r at may =
    rw
      (conflicts m.leases k.resource k.session id owner fresh ((Reach-IsGuarded r).held w k at may))
      refl

freed :
    (t : LeaseTable) (r : ResourceId) (id : SessionId)
    → Holds t r id
    → get r (release t r id).0.active ≡ none
unfolding release
freed t r id h = elim (Option-cases (get r t.active)) [
  | inl e ↦ ground (arith, h, e)
  | inr (lease, e) ↦
      ground (arith, h, e, get-remove r r t.active, ==_iff r r, ==_iff lease.session_id id)
]

ended :
    (m : Manager) (w : ℕ) (k : Worker) (result : HalResult (Unit {0}))
    → get w m.workers ≡ some k
    → worker_ends m w result
      ≡ record m { workers = insert w (record k { completion = some result }) m.workers }
unfolding worker_ends
ended m w k result at = rw (at, worker_ends) refl

run_release :
    (m : Manager) (n w : ℕ) (r : ResourceId) (id : SessionId)
    → get n m.tasks ≡ some (release_reservation r id w)
    → is_finished m w ≡ true
    → (run_task m n).leases ≡ (release m.leases r id).0
unfolding run_task release_lease
run_release m n w r id at done = rw (at, run_task) (rw done refl)

finished_now :
    (m : Manager) (w : ℕ) (k : Worker) (result : HalResult (Unit {0}))
    → is_finished
        (record m { workers = insert w (record k { completion = some result }) m.workers })
        w
      ≡ true
unfolding is_finished
finished_now m w k result =
    ground (arith, get-insert w w (record k { completion = some result }) m.workers, ==_iff w w)

-- The end of the worker of a quarantined open, and the turn of the task that waits for it.
released :
    (m : Manager) (w n : ℕ) (k : Worker) (r : ResourceId) (id : SessionId)
    (result : HalResult (Unit {0}))
    → get w m.workers ≡ some k
    → get n m.tasks ≡ some (release_reservation r id w)
    → Holds m.leases r id
    → get r (run_task (worker_ends m w result) n).leases.active ≡ none
released m w n k r id result at waits held =
    let m' : Manager = record m {
      workers = insert w (record k { completion = some result }) m.workers;
    } in
    rw (ended m w k result at)
      (rw (run_release m' n w r id waits (finished_now m w k result)) (freed m.leases r id held))
