-- ===== src/Runtime/LeaseTable/Slot.antt =====
-- The contract of the lease table: each resource is an independent slot with a generation and at
-- most one lease, and an operation moves only the slot of its own resource.
use robot_hal.Prelude.{
  ℕ, ◌+◌, ◌-◌, ◌≡◌, refl, true, false, not, ◌&&◌, Option, none, some, inl, inr, Option-cases, get,
  arith, eqb, ◌==◌, get-insert, get-remove, if◌then◌else◌,
}
use robot_hal.Core.Names.{
  ResourceId, SessionId, OwnerId, LeaseId, control, resource_id_eq, session_id_eq, owner_id_eq,
  eq_resource_id_iff,
}
use robot_hal.Core.Lease.{LeaseToken, lease_token_eq, checked_succ}
use robot_hal.Runtime.LeaseTable.{
  ActiveLease, LeaseTable, current_generation, reserve_control, commit, quarantine, release,
}

pub record Slot : Type 0 where
  pub generation : ℕ
  pub lease : Option ActiveLease

abbrev pub slot : LeaseTable → ResourceId → Slot
slot t r = record { generation = current_generation t r; lease = get r t.active }

pub data Op : Type 0 where
  reserving : SessionId → OwnerId → LeaseId → Op
  committing quarantining : SessionId → LeaseToken → Op
  releasing : SessionId → Op

abbrev pub first_lease : SessionId → OwnerId → LeaseId → ℕ → ActiveLease
first_lease session owner fresh generation = record {
  session_id = session;
  owner_id = owner;
  token = record { lease_id = fresh; generation = generation; mode = control };
  committed = false;
}

-- A free slot whose generation is below `u64::MAX` takes the next generation.
reserved : Slot → SessionId → OwnerId → LeaseId → Slot
reserved s session owner fresh = elim s.lease [
  | some lease ↦ s
  | none ↦ elim (checked_succ s.generation) [
    | none ↦ s
    | some next ↦ record { generation = next; lease = some (first_lease session owner fresh next) }
  ]
]

committed : Slot → SessionId → LeaseToken → Slot
committed s session token = elim s.lease [
  | none ↦ s
  | some lease ↦
      if lease.session_id == session && lease.token == token
      then record s { lease = some (record lease { committed = true }) }
      else s
]

-- A lease that was never committed gives its generation back.
released : Slot → SessionId → Slot
released s session = elim s.lease [
  | none ↦ s
  | some lease ↦
      if lease.session_id == session
      then record {
        generation =
            if not lease.committed && eqb s.generation lease.token.generation
            then s.generation - 1
            else s.generation;
        lease = none;
      }
      else s
]

unfoldable pub slot_step : Slot → Op → Slot
unfolding reserved committed released
slot_step s (reserving session owner fresh) = reserved s session owner fresh
slot_step s (committing session token) = committed s session token
slot_step s (quarantining session token) = committed s session token
slot_step s (releasing session) = released s session

unfoldable pub step : LeaseTable → ResourceId → Op → LeaseTable
step t r (reserving session owner fresh) = (reserve_control t r session owner fresh).0
step t r (committing session token) = (commit t r session token).0
step t r (quarantining session token) = (quarantine t r session token).0
step t r (releasing session) = (release t r session).0

module _ (t : LeaseTable) (r j : ResourceId) (session : SessionId) where
  abbrev Moves : LeaseTable → Slot → Type 0
  Moves t' s = slot t' j ≡ (if r == j then s else slot t j)

  reserve_refines :
      (owner : OwnerId) (fresh : LeaseId)
      → Moves (reserve_control t r session owner fresh).0 (reserved (slot t r) session owner fresh)
  unfolding reserved current_generation reserve_control
  reserve_refines owner fresh = ground (
    arith,
    eq_resource_id_iff r j,
    get-insert r j (current_generation t r) t.current_generations,
    get-insert r j (current_generation t r + 1) t.current_generations,
    get-insert r j (first_lease session owner fresh (current_generation t r + 1)) t.active,
  )

  commit_refines :
      (token : LeaseToken) → Moves (commit t r session token).0 (committed (slot t r) session token)
  unfolding committed current_generation commit
  commit_refines token = elim (Option-cases (get r t.active)) [
    | inl e ↦ ground (arith, eq_resource_id_iff r j)
    | inr (lease, e) ↦
        ground (
          arith,
          eq_resource_id_iff r j,
          get-insert r j (record lease { committed = true }) t.active,
        )
  ]

  release_refines : Moves (release t r session).0 (released (slot t r) session)
  unfolding released current_generation release
  release_refines = elim (Option-cases (get r t.active)) [
    | inl e ↦ ground (arith, eq_resource_id_iff r j)
    | inr (lease, e) ↦ ground (
      arith,
      eq_resource_id_iff r j,
      get-remove r j t.active,
      get-remove r j t.current_generations,
      get-insert r j (lease.token.generation - 1) t.current_generations,
    )
  ]

quarantine-eq-commit :
    (t : LeaseTable) (r : ResourceId) (session : SessionId) (token : LeaseToken)
    → quarantine t r session token ≡ commit t r session token
unfolding quarantine commit
quarantine-eq-commit t r session token = refl

-- Every operation of the table, on every branch, changes the slot of its own resource as the slot
-- machine says and leaves every other slot as it was.
pub step_refines :
    (t : LeaseTable) (r j : ResourceId) (op : Op)
    → slot (step t r op) j ≡ (if r == j then slot_step (slot t r) op else slot t j)
unfolding step slot_step
step_refines t r j (reserving session owner fresh) = reserve_refines t r j session owner fresh
step_refines t r j (committing session token) = commit_refines t r j session token
step_refines t r j (quarantining session token) =
    rw (step, quarantine-eq-commit t r session token) (commit_refines t r j session token)
step_refines t r j (releasing session) = release_refines t r j session
