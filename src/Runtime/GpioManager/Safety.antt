-- ===== src/Runtime/GpioManager/Safety.antt =====
-- The lines of a GPIO session of crates/robot-hal-runtime/src/gpio_manager.rs belong to one worker:
-- what the updates of its manager keep.
use robot_hal.Prelude.{
  ℕ, ◌≡◌, ◌≢◌, refl, sym, Option, none, some, Map, get, insert, get-insert, nat_eq, arith, ◌==◌,
  ==_iff, Bool-cases, inl, inr, subst, Equality, ◌⊎◌, ◌∙◌,
}
use robot_hal.Core.Names.{ResourceId, SessionId, session_id_eq, resource_id_eq}
use robot_hal.Core.Error.{HalResult, err}
use robot_hal.Runtime.GpioManager.{Entry, Manager, Pending, Task, Worker}
use robot_hal.Runtime.GpioManager.Calls.{task_session, task_worker}
use robot_hal.Runtime.GpioManager.Steps.{Owns}
use robot_hal.Runtime.LeaseTable.{ActiveLease, LeaseTable}

abbrev pub Unrefused : Option (HalResult (Unit {0})) → Type 0
Unrefused (some (err e)) = ⊥
Unrefused _ = Unit {0}

-- The worker may have the native session open: it has not ended, and has not refused to open it.
abbrev pub MayHold : Worker → Type 0
MayHold k = (k.completion ≡ none) × Unrefused k.answer

abbrev pub HeldBy : SessionId → Option ActiveLease → Type 0
HeldBy id none = ⊥
HeldBy id (some lease) = lease.session_id ≡ id

-- The session has the active lease of the resource.
abbrev pub Holds : LeaseTable → ResourceId → SessionId → Type 0
Holds t r id = HeldBy id (get r t.active)

pub record IsGuarded (m : Manager) : Type 0 where
  pub held :
      (w : ℕ) (k : Worker)
      → get w m.workers ≡ some k
      → MayHold k
      → Holds m.leases k.resource k.session
  pub alone :
      (w v : ℕ) (k j : Worker)
      → get w m.workers ≡ some k
      → get v m.workers ≡ some j
      → k.session ≡ j.session
      → w ≡ v
  pub reserved :
      (id : SessionId) (p : Pending) → get id m.opening ≡ some p → Holds m.leases p.resource id
  pub unspawned :
      (id : SessionId) (p : Pending)
      → get id m.opening ≡ some p
      → p.worker ≡ none
      → (w : ℕ) (k : Worker) → get w m.workers ≡ some k
      → k.session ≢ id
  pub spawned :
      (id : SessionId) (p : Pending) (w : ℕ)
      → get id m.opening ≡ some p
      → p.worker ≡ some w
      → Owns m id w
  pub entries :
      (id : SessionId) (e : Entry)
      → get id m.sessions ≡ some e
      → Owns m id e.worker × (get id m.opening ≡ none)
  pub waiting :
      (n : ℕ) (t : Task)
      → get n m.tasks ≡ some t
      → Owns m (task_session t) (task_worker t) × (get (task_session t) m.opening ≡ none)

-- What stands in a map after an insertion.
pub insert_cases {ℓ κ} :
    {K : Type ℓ} {V : Type κ} ⦃e : Equality K⦄ (k j : K) (v w : V) (m : Map K V)
    → get j (insert k v m) ≡ some w
    → ((j ≡ k) × (w ≡ v)) ⊎ ((j ≢ k) × (get j m ≡ some w))
insert_cases k j v w m h = elim (Bool-cases (k == j)) [
  | inl same ↦ inl (sym ((==_iff k j).0 same), ground (arith, get-insert k j v m, h, same))
  | inr other ↦
      inr (λ e. ground (arith, ==_iff k j, other, e), ground (arith, get-insert k j v m, h, other))
]

pub Owns-insert :
    (m : Manager) (id : SessionId) (v w : ℕ) (k k' : Worker)
    → get w m.workers ≡ some k
    → k'.session ≡ k.session
    → Owns m id v
    → Owns (record m { workers = insert w k' m.workers }) id v
Owns-insert m id v w k k' at same (j, e, s) = elim (Bool-cases (w == v)) [
  | inl match ↦ (
    k',
    ground (arith, get-insert w v k' m.workers, match),
    ground (arith, ==_iff w v, match, at, e, s, same),
  )
  | inr other ↦ (j, ground (arith, get-insert w v k' m.workers, other, e), s)
]

-- A worker that an older one with the same session and resource stands for.
record Succeeds (m : Manager) (v : ℕ) (j : Worker) : Type 0 where
  old : Worker
  at : get v m.workers ≡ some old
  same_session : old.session ≡ j.session
  same_resource : old.resource ≡ j.resource
  less : MayHold j → MayHold old

succeeds :
    (m : Manager) (w v : ℕ) (k k' j : Worker)
    → get w m.workers ≡ some k
    → k'.session ≡ k.session
    → k'.resource ≡ k.resource
    → (MayHold k' → MayHold k)
    → get v (insert w k' m.workers) ≡ some j
    → Succeeds m v j
succeeds m w v k k' j at same there less h = elim (insert_cases w v k' j m.workers h) [
  | inl (e, f) ↦ record {
    old = k;
    at = rw e at;
    same_session = rw f (sym same);
    same_resource = rw f (sym there);
    less = λ may. less (subst MayHold f may);
  }
  | inr (other, e) ↦ record {
    old = j;
    at = e;
    same_session = refl;
    same_resource = refl;
    less = λ may. may;
  }
]

pub keep_worker :
    (m : Manager) (w : ℕ) (k k' : Worker)
    → IsGuarded m
    → get w m.workers ≡ some k
    → k'.session ≡ k.session
    → k'.resource ≡ k.resource
    → (MayHold k' → MayHold k)
    → IsGuarded (record m { workers = insert w k' m.workers })
keep_worker m w k k' g at same there less =
    let before : (v : ℕ) (j : Worker) → get v (insert w k' m.workers) ≡ some j → Succeeds m v j =
      λ v j h. succeeds m w v k k' j at same there less h in
    record {
      held = λ v j h may.
          let b = before v j h in
          subst (λ (r : ResourceId). Holds m.leases r j.session) b.same_resource
            (subst (λ (i : SessionId). Holds m.leases b.old.resource i) b.same_session
              (g.held v b.old b.at (b.less may)));
      alone = λ v u j i h h' e.
          let b = before v j h in
          let c = before u i h' in
          g.alone v u b.old c.old b.at c.at (b.same_session ∙ (e ∙ sym c.same_session));
      reserved = g.reserved;
      unspawned = λ id p at' is v j h e.
          let b = before v j h in g.unspawned id p at' is v b.old b.at (b.same_session ∙ e);
      spawned = λ id p v at' is. Owns-insert m id v w k k' at same (g.spawned id p v at' is);
      entries = λ id e at'.
          (Owns-insert m id e.worker w k k' at same (g.entries id e at').0, (g.entries id e at').1);
      waiting = λ n t at'. (
        Owns-insert m (task_session t) (task_worker t) w k k' at same (g.waiting n t at').0,
        (g.waiting n t at').1,
      );
    }
