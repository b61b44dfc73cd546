-- ===== src/Runtime/CanLeaseTable/Fencing.antt =====
-- Generations in the CAN lease table: each is given out once, and a released token stays refused.
use robot_hal.Prelude.{
  ℕ, ◌+◌, ◌≤◌, ◌<◌, ◌≡◌, refl, sym, subst, String, inl, inr, Bool, true, false, Option, none, some,
  List, [], ◌∷◌, arith, Bool-cases, Option-cases, get, values, tally, eqb, tally-insert,
  tally-remove, tally-remove-le, ◌==◌, if◌then◌else◌, is_some_and, remove, ==_refl,
}
use robot_hal.Core.Names.{
  ResourceId, SessionId, OwnerId, LeaseId, LeaseMode, resource_id_eq, session_id_eq,
  eq_resource_id_iff,
}
use robot_hal.Core.Lease.{LeaseToken, lease_token_eq, eq_lease_token_iff}
use robot_hal.Core.Error.{is_ok}
use robot_hal.Runtime.CanLeaseTable.{
  lease_entry, reserve_in, commit_in, release_in, release, validate, validate_active, active_lease,
  holds,
}
use robot_hal.Runtime.CanLeases.{CanReservation, ResourceLeases, CanLeaseTable, LeaseEntry}
use robot_hal.Runtime.CanLeaseTable.Steps.{
  Op, reserving, committing, cancelling, releasing, target, step_in, step, cancel_in, leases_at,
  resource_step_refines,
}
use robot_hal.Runtime.CanLeaseTable.Exclusion.{run}

abbrev dates_from : ℕ → LeaseEntry → Bool
dates_from g entry = eqb entry.token.generation g

abbrev one_of : ℕ → Option LeaseEntry → ℕ
one_of g none = 0
one_of g (some entry) = if dates_from g entry then 1 else 0

-- How many leases of a resource carry generation `g`.
abbrev pub uses : ℕ → ResourceLeases → ℕ
uses g l = tally (dates_from g) (values l.observes) + one_of g l.controller + one_of g l.maintainer

-- A generation is carried by one lease at most, and by none before it is given out.
pub record IsUnique (g : ℕ) (l : ResourceLeases) : Type 0 where
  pub once : uses g l ≤ 1
  pub issued : l.last_generation < g → uses g l ≡ 0

-- The generation has been given out, and its lease is gone.
pub record IsSpent (g : ℕ) (l : ResourceLeases) : Type 0 where
  pub issued : g ≤ l.last_generation
  pub gone : uses g l ≡ 0

module _ (g : ℕ) (l : ResourceLeases) where
  commit_in-IsUnique :
      (v : CanReservation) (fresh : LeaseId) → IsUnique g l → IsUnique g (commit_in l v fresh).0
  unfolding commit_in
  commit_in-IsUnique v fresh h = ground (
    arith,
    tally-insert (dates_from g) v.session_id (lease_entry v fresh (l.last_generation + 1))
        l.observes,
  )

  commit_in-IsSpent :
      (v : CanReservation) (fresh : LeaseId) → IsSpent g l → IsSpent g (commit_in l v fresh).0
  unfolding commit_in
  commit_in-IsSpent v fresh h = ground (
    arith,
    tally-insert (dates_from g) v.session_id (lease_entry v fresh (l.last_generation + 1))
        l.observes,
  )

  step_in-IsUnique : (op : Op) → IsUnique g l → IsUnique g (step_in l op)
  unfolding step_in reserve_in cancel_in release_in
  step_in-IsUnique (reserving r session owner mode fresh) h = ground arith
  step_in-IsUnique (committing v fresh) h = commit_in-IsUnique v fresh h
  step_in-IsUnique (cancelling v) h = ground arith
  step_in-IsUnique (releasing r session token) h =
      ground (arith, tally-remove-le (dates_from g) session l.observes)

  step_in-IsSpent : (op : Op) → IsSpent g l → IsSpent g (step_in l op)
  unfolding step_in reserve_in cancel_in release_in
  step_in-IsSpent (reserving r session owner mode fresh) h = ground arith
  step_in-IsSpent (committing v fresh) h = commit_in-IsSpent v fresh h
  step_in-IsSpent (cancelling v) h = ground arith
  step_in-IsSpent (releasing r session token) h =
      ground (arith, tally-remove-le (dates_from g) session l.observes)

same_generation :
    (token : LeaseToken) (o : Option LeaseEntry)
    → is_some_and o (holds token) ≡ true
    → one_of token.generation o ≡ 1
same_generation token none h = ground arith
same_generation token (some entry) h = ground (arith, eq_lease_token_iff entry.token token)

-- A lease that a session observes with, seen by its count.
observed :
    (g : ℕ) (l : ResourceLeases) (session : SessionId) (entry : LeaseEntry)
    → get session l.observes ≡ some entry
    → entry.token.generation ≡ g
    → tally (dates_from g) (values (remove session l.observes)) + 1
      ≤ tally (dates_from g) (values l.observes)
observed g l session entry e d = ground (arith, tally-remove (dates_from g) session l.observes)

release_in-IsSpent :
    (l : ResourceLeases) (session : SessionId) (token : LeaseToken)
    → IsUnique token.generation l
    → (release_in l session token).1 ≡ true
    → IsSpent token.generation (release_in l session token).0
unfolding release_in
release_in-IsSpent l session token h e = elim (Option-cases (get session l.observes)) [
  | inl f ↦ ground (
    arith,
    Option-cases l.controller,
    Option-cases l.maintainer,
    same_generation token l.controller,
    same_generation token l.maintainer,
  )
  | inr (entry, f) ↦ ground (
    arith,
    observed token.generation l session entry f,
    eq_lease_token_iff entry.token token,
    same_generation token l.controller,
    same_generation token l.maintainer,
  )
]

spent_refused :
    (l : ResourceLeases) (session : SessionId) (token : LeaseToken) (entry : LeaseEntry)
    → uses token.generation l ≡ 0
    → active_lease l session ≡ some entry
    → (entry.token == token) ≡ false
unfolding active_lease
spent_refused l session token entry h e =
    ground (arith, observed token.generation l session entry, eq_lease_token_iff entry.token token)

validate_spent :
    (t : CanLeaseTable) (r : ResourceId) (session : SessionId) (owner : OwnerId)
    (token : LeaseToken) (required : LeaseMode) (operation : String)
    → uses token.generation (leases_at t r) ≡ 0
    → is_ok (validate t r session owner token required operation) ≡ false
unfolding validate validate_active
validate_spent t r session owner token required operation h =
    elim (Option-cases (get r t.resources)) [
      | inl e ↦ ground arith
      | inr (l, e) ↦ elim (Option-cases (active_lease l session)) [
        | inl f ↦ ground arith
        | inr (entry, f) ↦ ground (arith, spent_refused l session token entry)
      ]
    ]

abbrev pub IsIssued : CanLeaseTable → Type 0
IsIssued t = (r : ResourceId) (g : ℕ) → IsUnique g (leases_at t r)

-- Every operation keeps the generations of every resource apart.
step-IsIssued : (t : CanLeaseTable) (op : Op) → IsIssued t → IsIssued (step t op)
step-IsIssued t op h j g = rw (resource_step_refines t op j) (elim (Bool-cases (target op == j)) [
  | inl e ↦ rw e (step_in-IsUnique g (leases_at t (target op)) op (h (target op) g))
  | inr e ↦ rw e (h j g)
])

run-IsIssued : (t : CanLeaseTable) (ops : List Op) → IsIssued t → IsIssued (run t ops)
unfolding run
run-IsIssued t [] h = h
run-IsIssued t (op ∷ ops) h = run-IsIssued (step t op) ops (step-IsIssued t op h)

run-IsSpent :
    (g : ℕ) (j : ResourceId) (t : CanLeaseTable) (ops : List Op)
    → IsSpent g (leases_at t j)
    → IsSpent g (leases_at (run t ops) j)
unfolding run
run-IsSpent g j t [] h = h
run-IsSpent g j t (op ∷ ops) h = run-IsSpent g j (step t op) ops (
    rw (resource_step_refines t op j) (elim (Bool-cases (target op == j)) [
      | inl e ↦ rw e (
          step_in-IsSpent g (leases_at t (target op)) op (
            subst (λ k. IsSpent g (leases_at t k)) (sym ((eq_resource_id_iff (target op) j).0 e))
              h))
      | inr e ↦ rw e h
    ]))

empty-IsIssued : IsIssued (record { resources = [] })
unfolding get
empty-IsIssued r g = record { once = omega arith; issued = λ h. refl }

-- After any history from the empty table no two active leases of a resource carry one generation,
-- and none carries a generation above the resource's last one.
pub run_empty-IsIssued : (ops : List Op) → IsIssued (run (record { resources = [] }) ops)
run_empty-IsIssued ops = run-IsIssued (record { resources = [] }) ops empty-IsIssued

released_moves :
    (t : CanLeaseTable) (r : ResourceId) (session : SessionId) (token : LeaseToken)
    → (release t r session token).1 ≡ true
    → (release_in (leases_at t r) session token).1 ≡ true
unfolding release
released_moves t r session token e = elim (Option-cases (get r t.resources)) [
  | inl f ↦ ground arith
  | inr (l, f) ↦ ground arith
]

-- After any history from the empty table: once `release` has ended a lease, its token is refused by
-- `validate` for every session, owner and mode, whatever operations come after.
pub release_spends :
    (before after : List Op) (r : ResourceId) (session other : SessionId) (owner : OwnerId)
    (token : LeaseToken) (required : LeaseMode) (operation : String)
    → let t = run (record { resources = [] }) before in
      (release t r session token).1 ≡ true
      → is_ok (
          validate (run (release t r session token).0 after) r other owner token required operation)
        ≡ false
unfolding step step_in
release_spends before after r session other owner token required operation e =
    let t = run (record { resources = [] }) before in
    let l = leases_at t r in
    let spent =
      release_in-IsSpent l session token (run_empty-IsIssued before r token.generation)
        (released_moves t r session token e) in
    let t' = (release t r session token).0 in
    let start : IsSpent token.generation (leases_at t' r) =
      rw (resource_step_refines t (releasing r session token) r, ==_refl r) spent in
    validate_spent (run t' after) r other owner token required operation
      (run-IsSpent token.generation r t' after start).gone
