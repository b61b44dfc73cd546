-- ===== src/Runtime/GpioManager/Turns.antt =====
-- Looking a session up, closing, background tasks and workers keep the lines of a GPIO session
-- guarded (crates/robot-hal-runtime/src/gpio_manager.rs).
use robot_hal.Prelude.{
  ℕ, ◌≡◌, refl, sym, String, Bool, true, false, Option, none, some, List, [], ◌∷◌, get, insert,
  remove, nat_eq, arith, Bool-cases, Option-cases, inl, inr, subst,
}
use robot_hal.Core.Names.{ResourceId, SessionId, session_id_eq, resource_id_eq}
use robot_hal.Core.Error.{HalError, HalResult, ok, err, ◌>>◌}
use robot_hal.Core.Lease.{LeaseToken}
use robot_hal.Runtime.GpioManager.{
  Entry, Manager, Task, Worker, reap, release_lease, release_reservation, request_close,
}
use robot_hal.Runtime.GpioManager.Calls.{
  admitted, check_closed, close_all, close_worker, finish_session, is_closing, is_finished, perform,
  run_task, session_worker, task_worker, worker_answers, worker_ends,
}
use robot_hal.Runtime.GpioManager.Steps.{Owns}
use robot_hal.Runtime.GpioManager.Safety.{IsGuarded, Unrefused, keep_worker}
use robot_hal.Runtime.GpioManager.Changes.{
  add_task-IsGuarded, drop_session-IsGuarded, drop_task-IsGuarded, release-IsGuarded,
}
use robot_hal.Runtime.GpioManager.Endings.{
  Idle, Idle-of_ended, Owns-shut_down, request_close-IsGuarded,
}
use robot_hal.Runtime.LeaseTable.{release, validate}

-- The worker of the session has finished, so that no worker of the session may hold its device.
pub Idle-of_finished :
    (m : Manager) (id : SessionId) (w : ℕ)
    → IsGuarded m
    → Owns m id w
    → is_finished m w ≡ true
    → Idle m id
unfolding is_finished
Idle-of_finished m id w g (k, at, is) done =
    Idle-of_ended m id w k g at is (λ (end, fine). ground (arith, at, end, done))

finished_entry :
    (m : Manager) (id : SessionId) (o : Option Entry)
    → get id m.sessions ≡ o
    → IsGuarded m
    → Idle m id
    → IsGuarded (elim o [
      | none ↦ m
      | some entry ↦ record m {
        sessions = remove id m.sessions;
        leases = (release m.leases entry.resource id).0;
        closed = insert id (entry.resource, entry.owner) m.closed;
      }
    ])
unfolding release_lease
finished_entry m id none at g idle = g
finished_entry m id (some entry) at g idle =
    drop_session-IsGuarded (release_lease m entry.resource id) id
      (insert id (entry.resource, entry.owner) m.closed)
      (release-IsGuarded m entry.resource id g (g.entries id entry at).1 idle)

pub finish_session-IsGuarded :
    (m : Manager) (id : SessionId) → IsGuarded m → Idle m id → IsGuarded (finish_session m id)
unfolding finish_session release_lease
finish_session-IsGuarded m id g idle = finished_entry m id (get id m.sessions) refl g idle

-- What `session_worker` leaves behind: a guarded manager, and the worker of the session.
abbrev Asked : SessionId → Manager × HalResult (ℕ × ResourceId) → Type 0
Asked id (m, err e) = IsGuarded m
Asked id (m, ok (w, resource)) = IsGuarded m × Owns m id w × (get id m.opening ≡ none)

admitted-Asked :
    (m : Manager) (id : SessionId) (entry : Entry) (operation : String) (done closing : Bool)
    → IsGuarded m
    → get id m.sessions ≡ some entry
    → is_finished m entry.worker ≡ done
    → Asked id (admitted m id entry operation done closing)
admitted-Asked m id entry operation true closing g at e =
    finish_session-IsGuarded m id g
      (Idle-of_finished m id entry.worker g (g.entries id entry at).0 e)
admitted-Asked m id entry operation false true g at e = g
admitted-Asked m id entry operation false false g at e =
    (g, (g.entries id entry at).0, (g.entries id entry at).1)

validated-Asked :
    (m : Manager) (id : SessionId) (lease : LeaseToken) (entry : Entry) (operation : String)
    (r : HalResult (Unit {0}))
    → IsGuarded m
    → get id m.sessions ≡ some entry
    → Asked id (elim r [
      | err e ↦ (m, err e)
      | ok u ↦
          admitted m id entry operation (is_finished m entry.worker) (is_closing m entry.worker)
    ])
validated-Asked m id lease entry operation (err e) g at = g
validated-Asked m id lease entry operation (ok u) g at =
    admitted-Asked m id entry operation (is_finished m entry.worker) (is_closing m entry.worker) g
      at refl

missing-Asked :
    (m : Manager) (id : SessionId) (r : HalResult (Unit {0})) (e : HalError)
    → IsGuarded m
    → Asked id (m, r >> err e)
missing-Asked m id (err x) e g = g
missing-Asked m id (ok u) e g = g

pub session_worker-Asked :
    (m : Manager) (id : SessionId) (lease : LeaseToken) (operation : String)
    → IsGuarded m
    → Asked id (session_worker m id lease operation)
unfolding session_worker
session_worker-Asked m id lease operation g = elim (Option-cases (get id m.sessions)) [
  | inl e ↦ rw (e, session_worker) (missing-Asked m id (check_closed m id lease operation) _ g)
  | inr (entry, e) ↦
      rw (e, session_worker)
        (validated-Asked m id lease entry operation
          (validate m.leases entry.resource id entry.owner lease operation) g e)
]

pub Asked-IsGuarded :
    (id : SessionId) (r : Manager × HalResult (ℕ × ResourceId)) → Asked id r → IsGuarded r.0
Asked-IsGuarded id (m, err e) h = h
Asked-IsGuarded id (m, ok (w, resource)) h = h.0

pub close-IsGuarded :
    (id : SessionId) (n : ℕ) (r : Manager × HalResult (ℕ × ResourceId))
    → Asked id r
    → IsGuarded (close_worker id n r).0
close-IsGuarded id n (m, err e) h = h
close-IsGuarded id n (m, ok (w, resource)) (g, owns, shut) =
    add_task-IsGuarded (request_close m w) n (reap id w) (request_close-IsGuarded m w g)
      (Owns-shut_down m w (get w m.workers) id w refl owns) shut

pub close_all-IsGuarded :
    (found : List (SessionId × Entry)) (m : Manager) → IsGuarded m → IsGuarded (close_all m found)
unfolding close_all
close_all-IsGuarded [] m g = g
close_all-IsGuarded ((id, entry) ∷ rest) m g =
    close_all-IsGuarded rest (request_close m entry.worker)
      (request_close-IsGuarded m entry.worker g)

perform-IsGuarded :
    (m : Manager) (n : ℕ) (t : Task)
    → IsGuarded m
    → get n m.tasks ≡ some t
    → is_finished m (task_worker t) ≡ true
    → IsGuarded (perform (record m { tasks = remove n m.tasks }) t)
perform-IsGuarded m n (reap id w) g at done =
    finish_session-IsGuarded (record m { tasks = remove n m.tasks }) id (drop_task-IsGuarded m n g)
      (Idle-of_finished m id w g (g.waiting n (reap id w) at).0 done)
perform-IsGuarded m n (release_reservation r id w) g at done =
    release-IsGuarded (record m { tasks = remove n m.tasks }) r id (drop_task-IsGuarded m n g)
      (g.waiting n (release_reservation r id w) at).1
      (Idle-of_finished m id w g (g.waiting n (release_reservation r id w) at).0 done)

pub run_task-IsGuarded : (m : Manager) (n : ℕ) → IsGuarded m → IsGuarded (run_task m n)
unfolding run_task
run_task-IsGuarded m n g = elim (Option-cases (get n m.tasks)) [
  | inl e ↦ rw (e, run_task) g
  | inr (t, e) ↦ elim (Bool-cases (is_finished m (task_worker t))) [
    | inl done ↦ rw (e, run_task) (rw done (perform-IsGuarded m n t g e done))
    | inr runs ↦ rw (e, run_task) (rw runs g)
  ]
]

pub answers-IsGuarded :
    (m : Manager) (w : ℕ) (k : Worker) (result : HalResult (Unit {0}))
    → IsGuarded m
    → get w m.workers ≡ some k
    → k.answer ≡ none
    → k.completion ≡ none
    → IsGuarded (worker_answers m w result)
unfolding worker_answers
answers-IsGuarded m w k result g at fresh runs =
    rw (at, worker_answers)
      (keep_worker m w k (record k { answer = some result }) g at refl refl
        (λ may. (runs, subst Unrefused (sym fresh) tt)))

pub ends-IsGuarded :
    (m : Manager) (w : ℕ) (k : Worker) (result : HalResult (Unit {0}))
    → IsGuarded m
    → get w m.workers ≡ some k
    → IsGuarded (worker_ends m w result)
unfolding worker_ends
ends-IsGuarded m w k result g at =
    rw (at, worker_ends)
      (keep_worker m w k (record k { completion = some result }) g at refl refl
        (λ (end, fine). absurd (ground (arith, end))))
