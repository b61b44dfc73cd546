-- ===== src/Runtime/GpioManager/Changes.antt =====
-- What a change of one table of the manager of GPIO sessions does to its invariant
-- (crates/robot-hal-runtime/src/gpio_manager.rs).
use robot_hal.Runtime.GpioManager.Safety.{Holds, IsGuarded, MayHold, insert_cases}
use robot_hal.Prelude.{
  ℕ, ◌≡◌, ◌≢◌, sym, true, none, some, Map, get, insert, remove, get-insert, get-remove, nat_eq,
  arith, ==_iff, inl, inr, subst, Option-cases,
}
use robot_hal.Core.Names.{ResourceId, SessionId, OwnerId, session_id_eq, resource_id_eq}
use robot_hal.Core.Error.{HalResult, ok, err, is_ok}
use robot_hal.Core.Lease.{LeaseToken}
use robot_hal.Runtime.GpioManager.{
  Entry, Manager, Task, Worker, add_task, leave_open, release_lease,
}
use robot_hal.Runtime.GpioManager.Calls.{task_session, task_worker}
use robot_hal.Runtime.GpioManager.Steps.{Owns}
use robot_hal.Runtime.LeaseTable.{LeaseTable, release, commit}
use robot_hal.Runtime.LeaseTable.Active.{Reserves, fresh_lease}

pub leave_open-IsGuarded :
    (m : Manager) (id : SessionId) → IsGuarded m → IsGuarded (leave_open m id)
leave_open-IsGuarded m id g = record {
  held = g.held;
  alone = g.alone;
  reserved = λ j p at. g.reserved j p (ground (arith, get-remove id j m.opening, at));
  unspawned = λ j p at. g.unspawned j p (ground (arith, get-remove id j m.opening, at));
  spawned = λ j p w at. g.spawned j p w (ground (arith, get-remove id j m.opening, at));
  entries =
      λ j e at. ((g.entries j e at).0, ground (arith, get-remove id j m.opening, g.entries j e at));
  waiting = λ n t at. (
    (g.waiting n t at).0,
    ground (arith, get-remove id (task_session t) m.opening, g.waiting n t at),
  );
}

holds_release :
    (t : LeaseTable) (r s : ResourceId) (id j : SessionId)
    → j ≢ id
    → Holds t s j
    → Holds (release t r id).0 s j
unfolding release
holds_release t r s id j other h = elim (Option-cases (get r t.active)) [
  | inl e ↦ ground (arith, h, e)
  | inr (lease, e) ↦
      ground (arith, h, e, get-remove r s t.active, ==_iff r s, ==_iff lease.session_id id, other)
]

pub release-IsGuarded :
    (m : Manager) (r : ResourceId) (id : SessionId)
    → IsGuarded m
    → get id m.opening ≡ none
    → ((w : ℕ) (k : Worker) → get w m.workers ≡ some k → k.session ≡ id → ¬ MayHold k)
    → IsGuarded (release_lease m r id)
unfolding release_lease
release-IsGuarded m r id g shut idle = record {
  held = λ w k at may.
      holds_release m.leases r k.resource id k.session (λ e. idle w k at e may) (g.held w k at may);
  alone = g.alone;
  reserved = λ j p at.
      holds_release m.leases r p.resource id j (λ e. absurd (ground (arith, e, at, shut)))
        (g.reserved j p at);
  unspawned = g.unspawned;
  spawned = g.spawned;
  entries = g.entries;
  waiting = g.waiting;
}

pub add_task-IsGuarded :
    (m : Manager) (n : ℕ) (t : Task)
    → IsGuarded m
    → Owns m (task_session t) (task_worker t)
    → get (task_session t) m.opening ≡ none
    → IsGuarded (add_task m n t)
add_task-IsGuarded m n t g owns shut = record {
  held = g.held;
  alone = g.alone;
  reserved = g.reserved;
  unspawned = g.unspawned;
  spawned = g.spawned;
  entries = g.entries;
  waiting = λ v u at. elim (insert_cases n v t u m.tasks at) [
    | inl (e, f) ↦
        subst
          (λ (x : Task).
            Owns m (task_session x) (task_worker x) × (get (task_session x) m.opening ≡ none))
          (sym f) (owns, shut)
    | inr (other, e) ↦ g.waiting v u e
  ];
}

pub drop_task-IsGuarded :
    (m : Manager) (n : ℕ) → IsGuarded m → IsGuarded (record m { tasks = remove n m.tasks })
drop_task-IsGuarded m n g = record {
  held = g.held;
  alone = g.alone;
  reserved = g.reserved;
  unspawned = g.unspawned;
  spawned = g.spawned;
  entries = g.entries;
  waiting = λ v t at. g.waiting v t (ground (arith, get-remove n v m.tasks, at));
}

pub drop_session-IsGuarded :
    (m : Manager) (id : SessionId) (closed : Map SessionId (ResourceId × OwnerId))
    → IsGuarded m
    → IsGuarded (record m { sessions = remove id m.sessions; closed = closed })
drop_session-IsGuarded m id closed g = record {
  held = g.held;
  alone = g.alone;
  reserved = g.reserved;
  unspawned = g.unspawned;
  spawned = g.spawned;
  entries = λ j e at. g.entries j e (ground (arith, get-remove id j m.sessions, at));
  waiting = g.waiting;
}

pub add_session-IsGuarded :
    (m : Manager) (id : SessionId) (entry : Entry)
    → IsGuarded m
    → Owns m id entry.worker
    → get id m.opening ≡ none
    → IsGuarded (record m { sessions = insert id entry m.sessions })
add_session-IsGuarded m id entry g owns shut = record {
  held = g.held;
  alone = g.alone;
  reserved = g.reserved;
  unspawned = g.unspawned;
  spawned = g.spawned;
  entries = λ j e at. elim (insert_cases id j entry e m.sessions at) [
    | inl (same, f) ↦
        subst (λ (x : Entry). Owns m j x.worker × (get j m.opening ≡ none)) (sym f)
          (subst (λ (x : SessionId). Owns m x entry.worker × (get x m.opening ≡ none)) (sym same)
            (owns, shut))
    | inr (other, e') ↦ g.entries j e e'
  ];
  waiting = g.waiting;
}

-- Leases that hold what they held before guard what they guarded.
pub more_leases-IsGuarded :
    (m : Manager) (t : LeaseTable)
    → IsGuarded m
    → ((r : ResourceId) (id : SessionId) → Holds m.leases r id → Holds t r id)
    → IsGuarded (record m { leases = t })
more_leases-IsGuarded m t g more = record {
  held = λ w k at may. more k.resource k.session (g.held w k at may);
  alone = g.alone;
  reserved = λ id p at. more p.resource id (g.reserved id p at);
  unspawned = g.unspawned;
  spawned = g.spawned;
  entries = g.entries;
  waiting = g.waiting;
}

pub holds_commit :
    (t : LeaseTable) (r s : ResourceId) (id j : SessionId) (token : LeaseToken)
    → Holds t s j
    → Holds (commit t r id token).0 s j
unfolding commit
holds_commit t r s id j token h = elim (Option-cases (get r t.active)) [
  | inl e ↦ ground (arith, h, e)
  | inr (lease, e) ↦
      ground (arith, h, e, get-insert r s (record lease { committed = true }) t.active, ==_iff r s)
]

-- A reservation keeps what was held, and its success holds its resource.
pub reserve_holds :
    (t t' : LeaseTable) (r s : ResourceId) (id j : SessionId) (owner : OwnerId)
    (result : HalResult LeaseToken)
    → Reserves t r id owner t' result
    → (Holds t s j → Holds t' s j) × (is_ok result ≡ true → Holds t' r id)
reserve_holds t t' r s id j owner (ok token) (free, e) =
    let at = get-insert r s (fresh_lease id owner token) t.active in
    let self = get-insert r r (fresh_lease id owner token) t.active in
    (
      λ h. rw e (ground (arith, h, free, at, ==_iff r s)),
      λ u. rw e (ground (arith, self, ==_iff r r)),
    )
reserve_holds t t' r s id j owner (err x) e = (λ h. rw e h, λ u. ground arith)
