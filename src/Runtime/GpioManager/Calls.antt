-- ===== src/Runtime/GpioManager/Calls.antt =====
-- crates/robot-hal-runtime/src/gpio_manager.rs: the calls on an open session, close, `revoke_owner`, the
-- background tasks, and what a worker does.
use robot_hal.Runtime.GpioManager.{
  Entry, Manager, Task, actor_unavailable, add_task, close_timeout, release_lease, request_close,
  session_closed, reap, release_reservation,
}
use robot_hal.Prelude.{
  ℕ, String, Bool, true, false, Option, none, some, List, [], ◌∷◌, Map, get, insert, remove,
  is_some, if◌then◌else◌, nat_eq, ◌==◌, suc,
}
use robot_hal.Core.Names.{
  ResourceId, SessionId, OwnerId, conflict, session_id_eq, owner_id_eq, resource_id_eq,
}
use robot_hal.Core.Error.{HalResult, ok, err, ◌>>◌, map_err, with_resource_id}
use robot_hal.Core.Lease.{LeaseToken}
use robot_hal.Runtime.Errors.{runtime_error}
use robot_hal.Runtime.LeaseTable.{release, validate}

-- `GpioWorker::is_finished` and `is_closing`
unfoldable pub is_finished : Manager → ℕ → Bool
is_finished m w = elim (get w m.workers) [ none ↦ true | some worker ↦ is_some worker.completion ]

unfoldable pub is_closing : Manager → ℕ → Bool
is_closing m w = elim (get w m.workers) [ none ↦ true | some worker ↦ worker.closing ]

-- `finish_session`
unfoldable pub finish_session : Manager → SessionId → Manager
unfolding release
finish_session m id = elim (get id m.sessions) [
  | none ↦ m
  | some entry ↦ record m {
    sessions = remove id m.sessions;
    leases = (release m.leases entry.resource id).0;
    closed = insert id (entry.resource, entry.owner) m.closed;
  }
]

abbrev pub check_closed : Manager → SessionId → LeaseToken → String → HalResult (Unit {0})
check_closed m id lease operation = elim (get id m.closed) [
  | none ↦ ok tt
  | some (resource, owner) ↦ validate m.leases resource id owner lease operation
]

abbrev pub admitted :
    Manager → SessionId → Entry → String → Bool → Bool → Manager × HalResult (ℕ × ResourceId)
admitted m id entry operation true closing =
    (finish_session m id, err (with_resource_id (actor_unavailable operation) entry.resource))
admitted m id entry operation false true =
    (m, err (with_resource_id (session_closed operation) entry.resource))
admitted m id entry operation false false = (m, ok (entry.worker, entry.resource))

-- `session_worker`
unfoldable pub session_worker :
    Manager → SessionId → LeaseToken → String → Manager × HalResult (ℕ × ResourceId)
unfolding is_finished is_closing validate
session_worker m id lease operation = elim (get id m.sessions) [
  | none ↦ (
    m,
    check_closed m id lease operation
        >> err (
            runtime_error "runtime.session.closed" conflict operation false
              "GPIO session is closed"),
  )
  | some entry ↦ elim (validate m.leases entry.resource id entry.owner lease operation) [
    | err e ↦ (m, err e)
    | ok u ↦ admitted m id entry operation (is_finished m entry.worker) (is_closing m entry.worker)
  ]
]

abbrev pub close_worker :
    SessionId → ℕ → Manager × HalResult (ℕ × ResourceId) → Manager × HalResult (ℕ × ResourceId)
close_worker id n (m, err e) = (m, err e)
close_worker id n (m, ok (w, resource)) =
    (add_task (request_close m w) n (reap id w), ok (w, resource))

-- `close` up to its wait for the worker
unfoldable pub begin_close :
    Manager → SessionId → LeaseToken → ℕ → Manager × HalResult (ℕ × ResourceId)
unfolding session_worker
begin_close m id lease n = close_worker id n (session_worker m id lease "gpio.close")

-- `close` after its wait: what `wait_closed` returned, or `none` when the time is over
unfoldable pub end_close :
    Manager
    → SessionId
    → ResourceId
    → String
    → Option (HalResult (Unit {0}))
    → Manager × HalResult (Unit {0})
end_close m id resource timeout outcome = elim outcome [
  | none ↦ (m, err (with_resource_id (close_timeout "gpio.close" timeout) resource))
  | some result ↦ (finish_session m id, map_err (λ e. with_resource_id e resource) result)
]

-- The sessions of an owner, in the order of the map.
unfoldable pub owned : OwnerId → Map SessionId Entry → List (SessionId × Entry)
owned owner [] = []
owned owner ((id, entry) ∷ rest) =
    if entry.owner == owner then (id, entry) ∷ owned owner rest else owned owner rest

unfoldable pub close_all : Manager → List (SessionId × Entry) → Manager
close_all m [] = m
close_all m ((id, entry) ∷ rest) = close_all (request_close m entry.worker) rest

-- `revoke_owner` up to its loop
unfoldable pub begin_revoke : Manager → OwnerId → Manager × List (SessionId × Entry)
unfolding owned close_all
begin_revoke m owner = let found = owned owner m.sessions in (close_all m found, found)

-- The end of one round of its loop, after the wait for the worker: an error ends the loop.
unfoldable pub end_round :
    Manager
    → SessionId
    → ResourceId
    → String
    → Option (HalResult (Unit {0}))
    → Manager × HalResult (Unit {0})
unfolding finish_session
end_round m id resource timeout outcome = elim outcome [
  | none ↦ (m, err (with_resource_id (close_timeout "gpio.revoke_owner" timeout) resource))
  | some (err e) ↦ (m, err (with_resource_id e resource))
  | some (ok u) ↦ (finish_session m id, ok tt)
]

-- The loop of `revoke_owner`, with the number of the next task and what the wait for the worker of
-- each session returns. Nothing else happens to the manager between its rounds.
unfoldable pub revoke_loop :
    Manager
    → ℕ
    → String
    → (SessionId → Option (HalResult (Unit {0})))
    → List (SessionId × Entry)
    → Manager × HalResult (Unit {0})
unfolding end_round
revoke_loop m n timeout waits [] = (m, ok tt)
revoke_loop m n timeout waits ((id, entry) ∷ rest) =
    let (m', result) =
      end_round (add_task m n (reap id entry.worker)) id entry.resource timeout (waits id) in
    let next = revoke_loop m' (suc n) timeout waits rest in
    elim result [ err e ↦ (m', err e) | ok u ↦ next ]

abbrev pub task_worker : Task → ℕ
task_worker (reap id w) = w
task_worker (release_reservation resource id w) = w

abbrev pub task_session : Task → SessionId
task_session (reap id w) = id
task_session (release_reservation resource id w) = id

abbrev pub perform : Manager → Task → Manager
perform m (reap id w) = finish_session m id
perform m (release_reservation resource id w) = release_lease m resource id

-- A background task waits for its worker, and then acts once.
unfoldable pub run_task : Manager → ℕ → Manager
unfolding is_finished finish_session release_lease
run_task m n = elim (get n m.tasks) [
  | none ↦ m
  | some task ↦
      if is_finished m (task_worker task)
      then perform (record m { tasks = remove n m.tasks }) task
      else m
]

-- The worker answers the open, and ends; it ends without an answer if it panics before.
unfoldable pub worker_answers : Manager → ℕ → HalResult (Unit {0}) → Manager
worker_answers m w result = elim (get w m.workers) [
  | none ↦ m
  | some worker ↦ record m { workers = insert w (record worker { answer = some result }) m.workers }
]

unfoldable pub worker_ends : Manager → ℕ → HalResult (Unit {0}) → Manager
worker_ends m w result = elim (get w m.workers) [
  | none ↦ m
  | some worker ↦ record m {
    workers = insert w (record worker { completion = some result }) m.workers;
  }
]
