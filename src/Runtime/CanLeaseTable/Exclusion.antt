-- ===== src/Runtime/CanLeaseTable/Exclusion.antt =====
-- Which leases exclude one another, counting reservations with the leases.
use robot_hal.Prelude.{
  ℕ, ◌+◌, ◌≤◌, ◌≡◌, refl, ◌⊎◌, inl, inr, Bool, true, Option, none, some, List, [], ◌∷◌, arith,
  Bool-cases, Option-cases, get, values, tally, tally-any, tally-insert, tally-remove,
  tally-remove-le, ◌==◌, ==_iff, Map,
}
use robot_hal.Core.Names.{
  ResourceId, SessionId, OwnerId, LeaseId, LeaseMode, observe, control, maintenance, resource_id_eq,
  session_id_eq, lease_mode_eq,
}
use robot_hal.Core.Lease.{LeaseToken}
use robot_hal.Runtime.CanLeaseTable.{lease_entry, reserve_in, commit_in, release_in}
use robot_hal.Runtime.CanLeases.{
  CanReservation, ResourceLeases, CanLeaseTable, LeaseEntry, PendingEntry, has_mode, has_no_lease,
}
use robot_hal.Runtime.CanLeaseTable.Steps.{
  Op, reserving, committing, cancelling, releasing, target, step_in, step, cancel_in, leases_at,
  resource_step_refines, is_vacant-nil,
}

abbrev held : Option LeaseEntry → ℕ
held none = 0
held (some entry) = 1

abbrev every : LeaseEntry → Bool
every entry = true

abbrev pub maintainers : ResourceLeases → ℕ
maintainers l = tally (has_mode maintenance) (values l.pending) + held l.maintainer

abbrev pub controllers : ResourceLeases → ℕ
controllers l = tally (has_mode control) (values l.pending) + held l.controller

abbrev pub observers : ResourceLeases → ℕ
observers l = tally (has_mode observe) (values l.pending) + tally every (values l.observes)

-- At most one maintenance or control lease is held or promised, and beside a maintenance lease
-- there is no other.
pub record IsExclusive (l : ResourceLeases) : Type 0 where
  pub single : maintainers l + controllers l ≤ 1
  pub alone : (maintainers l ≡ 0) ⊎ (observers l ≡ 0)

pub every_none : (m : Map SessionId LeaseEntry) → tally every (values m) ≡ 0 → m ≡ []
every_none [] h = refl
every_none ((k, v) ∷ m) h = absurd (omega arith)

vacant_tallies :
    (l : ResourceLeases)
    → has_no_lease l ≡ true
    → (maintainers l ≡ 0) × (controllers l ≡ 0) × (observers l ≡ 0)
vacant_tallies l h = ground (arith, is_vacant-nil l.pending, is_vacant-nil l.observes)

reserve_in-IsExclusive :
    (l : ResourceLeases) (r : ResourceId) (session : SessionId) (owner : OwnerId) (mode : LeaseMode)
    (fresh : LeaseId)
    → IsExclusive l
    → IsExclusive (reserve_in l r session owner mode fresh).0
unfolding reserve_in
reserve_in-IsExclusive l r session owner mode fresh h =
    let entry : PendingEntry = record { reservation_id = fresh; owner_id = owner; mode = mode } in
    ground (
      arith,
      tally-insert (has_mode maintenance) session entry l.pending,
      tally-insert (has_mode control) session entry l.pending,
      tally-insert (has_mode observe) session entry l.pending,
      tally-any (has_mode maintenance) (values l.pending),
      tally-any (has_mode control) (values l.pending),
      vacant_tallies l,
    )

commit_in-IsExclusive :
    (l : ResourceLeases) (v : CanReservation) (fresh : LeaseId)
    → IsExclusive l
    → IsExclusive (commit_in l v fresh).0
unfolding commit_in
commit_in-IsExclusive l v fresh h = elim (Option-cases (get v.session_id l.pending)) [
  | inl e ↦ ground arith
  | inr (p, e) ↦ ground (
    arith,
    ==_iff p.mode v.mode,
    tally-remove (has_mode maintenance) v.session_id l.pending,
    tally-remove (has_mode control) v.session_id l.pending,
    tally-remove (has_mode observe) v.session_id l.pending,
    tally-insert every v.session_id (lease_entry v fresh (l.last_generation + 1)) l.observes,
  )
]

cancel_in-IsExclusive :
    (l : ResourceLeases) (v : CanReservation) → IsExclusive l → IsExclusive (cancel_in l v)
unfolding cancel_in
cancel_in-IsExclusive l v h = ground (
  arith,
  tally-remove-le (has_mode maintenance) v.session_id l.pending,
  tally-remove-le (has_mode control) v.session_id l.pending,
  tally-remove-le (has_mode observe) v.session_id l.pending,
)

release_in-IsExclusive :
    (l : ResourceLeases) (session : SessionId) (token : LeaseToken)
    → IsExclusive l
    → IsExclusive (release_in l session token).0
unfolding release_in
release_in-IsExclusive l session token h = ground (arith, tally-remove-le every session l.observes)

step_in-IsExclusive : (l : ResourceLeases) (op : Op) → IsExclusive l → IsExclusive (step_in l op)
unfolding step_in
step_in-IsExclusive l (reserving r session owner mode fresh) h =
    reserve_in-IsExclusive l r session owner mode fresh h
step_in-IsExclusive l (committing v fresh) h = commit_in-IsExclusive l v fresh h
step_in-IsExclusive l (cancelling v) h = cancel_in-IsExclusive l v h
step_in-IsExclusive l (releasing r session token) h = release_in-IsExclusive l session token h

abbrev pub IsValid : CanLeaseTable → Type 0
IsValid t = (r : ResourceId) → IsExclusive (leases_at t r)

-- Every operation keeps the leases of every resource exclusive.
pub step-IsValid : (t : CanLeaseTable) (op : Op) → IsValid t → IsValid (step t op)
step-IsValid t op h j = rw (resource_step_refines t op j) (elim (Bool-cases (target op == j)) [
  | inl e ↦ rw e (step_in-IsExclusive (leases_at t (target op)) op (h (target op)))
  | inr e ↦ rw e (h j)
])

-- A history of calls, oldest first.
unfoldable pub run : CanLeaseTable → List Op → CanLeaseTable
run t [] = t
run t (op ∷ ops) = run (step t op) ops

run-IsValid : (t : CanLeaseTable) (ops : List Op) → IsValid t → IsValid (run t ops)
unfolding run
run-IsValid t [] h = h
run-IsValid t (op ∷ ops) h = run-IsValid (step t op) ops (step-IsValid t op h)

pub empty-IsValid : IsValid (record { resources = [] })
unfolding get
empty-IsValid r = record { single = omega arith; alone = inl refl }

-- After any history from the empty table the leases of every resource are exclusive: counting
-- reservations with leases, at most one is for maintenance or control, and beside one for
-- maintenance none is for observing.
pub run_empty-IsExclusive : (ops : List Op) → IsValid (run (record { resources = [] }) ops)
run_empty-IsExclusive ops = run-IsValid (record { resources = [] }) ops empty-IsValid

-- In a valid table a reservation that is pending for control finds no control lease in place, and
-- one that is pending for maintenance finds no lease of any kind: `commit` overwrites nothing.
commit_overwrites_nothing :
    (t : CanLeaseTable) (r : ResourceId) (session : SessionId) (p : PendingEntry)
    → IsValid t
    → get session (leases_at t r).pending ≡ some p
    → (p.mode ≡ control → (leases_at t r).controller ≡ none)
      × (p.mode ≡ maintenance
          → ((leases_at t r).controller ≡ none)
            × ((leases_at t r).maintainer ≡ none)
            × ((leases_at t r).observes ≡ []))
commit_overwrites_nothing t r session p h e =
    let l = leases_at t r in
    (
      λ m. ground (arith, h r, tally-remove (has_mode control) session l.pending),
      λ m. ground (
        arith,
        h r,
        tally-remove (has_mode maintenance) session l.pending,
        tally-remove (has_mode control) session l.pending,
        every_none l.observes,
      ),
    )
