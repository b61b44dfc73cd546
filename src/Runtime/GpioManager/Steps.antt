-- ===== src/Runtime/GpioManager/Steps.antt =====
-- The steps of the manager of GPIO sessions (crates/robot-hal-runtime/src/gpio_manager.rs): what runs
-- under its lock or on a worker, in any order. Calls, tasks and workers interleave between them.
use robot_hal.Prelude.{ℕ, String, ◌≡◌, ◌≢◌, true, none, some, [], get, nat_eq}
use robot_hal.Core.Names.{ResourceId, SessionId, OwnerId, LeaseId, session_id_eq}
use robot_hal.Core.Error.{HalError, HalResult}
use robot_hal.Core.Lease.{LeaseToken}
use robot_hal.Runtime.GpioManager.{
  Manager, Pending, Task, Worker, add_task, finish_open, reap, reserve_open, spawn_failed,
  spawn_worker,
}
use robot_hal.Runtime.GpioManager.Calls.{
  begin_close, begin_revoke, end_close, end_round, is_finished, run_task, session_worker,
  task_session, worker_answers, worker_ends,
}
use robot_hal.Runtime.LeaseTable.{empty}

-- `State::default()`
abbrev pub start : Manager
start = record {
  leases = empty;
  sessions = [];
  closed = [];
  workers = [];
  tasks = [];
  opening = [];
}

-- The worker that a call remembers is that of its session.
abbrev pub Owns : Manager → SessionId → ℕ → Type 0
Owns m id w = (k : Worker) × (get w m.workers ≡ some k) × (k.session ≡ id)

-- `Uuid::new_v4` draws an identifier that nothing in the manager has.
abbrev pub IsNew : Manager → SessionId → Type 0
IsNew m id =
    (get id m.opening ≡ none)
    × (get id m.sessions ≡ none)
    × ((w : ℕ) (k : Worker) → get w m.workers ≡ some k → k.session ≢ id)
    × ((n : ℕ) (t : Task) → get n m.tasks ≡ some t → task_session t ≢ id)

pub data Step : Manager → Manager → Type 0 where
  reserves :
      (m : Manager) (owner : OwnerId) (resource : ResourceId) (id : SessionId) (fresh : LeaseId)
      → IsNew m id
      → Step m (reserve_open m owner resource id fresh).0
  spawn_fails :
      (m : Manager) (id : SessionId) (p : Pending) (e : HalError)
      → get id m.opening ≡ some p
      → p.worker ≡ none
      → Step m (spawn_failed m id p e).0
  spawns :
      (m : Manager) (id : SessionId) (p : Pending) (w : ℕ)
      → get id m.opening ≡ some p
      → p.worker ≡ none
      → get w m.workers ≡ none
      → Step m (spawn_worker m id p w)
  finishes_open :
      (m : Manager) (id : SessionId) (p : Pending) (w n : ℕ) (timeout : String)
      → get id m.opening ≡ some p
      → p.worker ≡ some w
      → get n m.tasks ≡ none
      → Step m (finish_open m id p w n timeout).0
  asks :
      (m : Manager) (id : SessionId) (lease : LeaseToken) (operation : String)
      → Step m (session_worker m id lease operation).0
  begins_close :
      (m : Manager) (id : SessionId) (lease : LeaseToken) (n : ℕ)
      → get n m.tasks ≡ none
      → Step m (begin_close m id lease n).0
  ends_close :
      (m : Manager) (id : SessionId) (w : ℕ) (resource : ResourceId) (timeout : String)
      (result : HalResult (Unit {0}))
      → Owns m id w
      → is_finished m w ≡ true
      → Step m (end_close m id resource timeout (some result)).0
  begins_revoke : (m : Manager) (owner : OwnerId) → Step m (begin_revoke m owner).0
  begins_round :
      (m : Manager) (id : SessionId) (w n : ℕ)
      → Owns m id w
      → get id m.opening ≡ none
      → get n m.tasks ≡ none
      → Step m (add_task m n (reap id w))
  ends_round :
      (m : Manager) (id : SessionId) (w : ℕ) (resource : ResourceId) (timeout : String)
      (result : HalResult (Unit {0}))
      → Owns m id w
      → is_finished m w ≡ true
      → Step m (end_round m id resource timeout (some result)).0
  runs_task : (m : Manager) (n : ℕ) → Step m (run_task m n)
  answers :
      (m : Manager) (w : ℕ) (k : Worker) (result : HalResult (Unit {0}))
      → get w m.workers ≡ some k
      → k.answer ≡ none
      → k.completion ≡ none
      → Step m (worker_answers m w result)
  ends :
      (m : Manager) (w : ℕ) (k : Worker) (result : HalResult (Unit {0}))
      → get w m.workers ≡ some k
      → k.completion ≡ none
      → Step m (worker_ends m w result)

pub data Reach : Manager → Type 0 where
  here : Reach start
  next : {m m' : Manager} → Reach m → Step m m' → Reach m'
