-- ===== src/Runtime/CanLeaseTable/Steps.antt =====
-- The operations of the CAN lease table as steps on the entry of one resource.
use robot_hal.Prelude.{
  ◌≡◌, refl, true, not, inl, inr, List, [], ◌∷◌, Option-cases, arith, get, unwrap_or, is_some_and,
  ◌==◌, get-insert, get-remove, if◌then◌else◌,
}
use robot_hal.Core.Names.{
  ResourceId, SessionId, OwnerId, LeaseId, LeaseMode, resource_id_eq, session_id_eq,
  eq_resource_id_iff,
}
use robot_hal.Core.Lease.{LeaseToken}
use robot_hal.Runtime.CanLeaseTable.{
  drop_pending, is_reserved_by, reserve_in, reserve, commit_in, commit, cancel, release_in, release,
}
use robot_hal.Runtime.CanLeases.{
  CanReservation, ResourceLeases, CanLeaseTable, no_leases, is_vacant, has_no_lease,
}

-- The leases of a resource; one that the table does not hold has none.
abbrev pub leases_at : CanLeaseTable → ResourceId → ResourceLeases
leases_at t r = unwrap_or no_leases (get r t.resources)

pub data Op : Type 0 where
  reserving : ResourceId → SessionId → OwnerId → LeaseMode → LeaseId → Op
  committing : CanReservation → LeaseId → Op
  cancelling : CanReservation → Op
  releasing : ResourceId → SessionId → LeaseToken → Op

abbrev pub target : Op → ResourceId
target (reserving r session owner mode fresh) = r
target (committing v fresh) = v.resource_id
target (cancelling v) = v.resource_id
target (releasing r session token) = r

unfoldable pub cancel_in : ResourceLeases → CanReservation → ResourceLeases
cancel_in l v =
    if not (is_some_and (get v.session_id l.pending) (is_reserved_by v))
    then l
    else drop_pending l v.session_id

unfoldable pub step_in : ResourceLeases → Op → ResourceLeases
step_in l (reserving r session owner mode fresh) = (reserve_in l r session owner mode fresh).0
step_in l (committing v fresh) = (commit_in l v fresh).0
step_in l (cancelling v) = cancel_in l v
step_in l (releasing r session token) = (release_in l session token).0

unfoldable pub step : CanLeaseTable → Op → CanLeaseTable
step t (reserving r session owner mode fresh) = (reserve t r session owner mode fresh).0
step t (committing v fresh) = (commit t v fresh).0
step t (cancelling v) = (cancel t v).0
step t (releasing r session token) = (release t r session token).0

pub is_vacant-nil {ℓ} : {A : Type ℓ} (xs : List A) → is_vacant xs ≡ true → xs ≡ []
is_vacant-nil [] h = refl
is_vacant-nil (x ∷ xs) h = ground arith

no_leases_of : (l : ResourceLeases) → l.last_generation ≡ 0 → has_no_lease l ≡ true → l ≡ no_leases
no_leases_of l g h = ground (arith, is_vacant-nil l.pending, is_vacant-nil l.observes)

-- On an entry without leases nothing can be committed, cancelled or released.
commit_in-no_leases :
    (v : CanReservation) (fresh : LeaseId) → (commit_in no_leases v fresh).0 ≡ no_leases
unfolding commit_in get
commit_in-no_leases v fresh = refl

cancel_in-no_leases : (v : CanReservation) → cancel_in no_leases v ≡ no_leases
unfolding cancel_in get
cancel_in-no_leases v = refl

release_in-no_leases :
    (session : SessionId) (token : LeaseToken) → (release_in no_leases session token).0 ≡ no_leases
unfolding release_in get
release_in-no_leases session token = refl

module _ (t : CanLeaseTable) (j : ResourceId) where
  abbrev Moves : ResourceId → CanLeaseTable → ResourceLeases → Type 0
  Moves r t' l = leases_at t' j ≡ (if r == j then l else leases_at t j)

  reserve-Moves :
      (r : ResourceId) (session : SessionId) (owner : OwnerId) (mode : LeaseMode) (fresh : LeaseId)
      → Moves r
          (reserve t r session owner mode fresh).0
          (reserve_in (leases_at t r) r session owner mode fresh).0
  unfolding reserve
  reserve-Moves r session owner mode fresh =
      ground (
        arith,
        get-insert r j (reserve_in (leases_at t r) r session owner mode fresh).0 t.resources,
      )

  commit-Moves :
      (v : CanReservation) (fresh : LeaseId)
      → Moves v.resource_id (commit t v fresh).0 (commit_in (leases_at t v.resource_id) v fresh).0
  unfolding commit
  commit-Moves v fresh = elim (Option-cases (get v.resource_id t.resources)) [
    | inl e ↦ ground (arith, commit_in-no_leases v fresh, eq_resource_id_iff v.resource_id j)
    | inr (l, e) ↦ ground (arith, get-insert v.resource_id j (commit_in l v fresh).0 t.resources)
  ]

  cancel-Moves :
      (v : CanReservation)
      → Moves v.resource_id (cancel t v).0 (cancel_in (leases_at t v.resource_id) v)
  unfolding cancel cancel_in
  cancel-Moves v = elim (Option-cases (get v.resource_id t.resources)) [
    | inl e ↦ ground (arith, cancel_in-no_leases v, eq_resource_id_iff v.resource_id j)
    | inr (l, e) ↦ ground (
      arith,
      no_leases_of (drop_pending l v.session_id),
      get-remove v.resource_id j t.resources,
      get-insert v.resource_id j (drop_pending l v.session_id) t.resources,
      eq_resource_id_iff v.resource_id j,
    )
  ]

  release-Moves :
      (r : ResourceId) (session : SessionId) (token : LeaseToken)
      → Moves r (release t r session token).0 (release_in (leases_at t r) session token).0
  unfolding release
  release-Moves r session token = elim (Option-cases (get r t.resources)) [
    | inl e ↦ ground (arith, release_in-no_leases session token, eq_resource_id_iff r j)
    | inr (l, e) ↦ ground (arith, get-insert r j (release_in l session token).0 t.resources)
  ]

-- Every operation of the CAN table, on every branch, changes the leases of its own resource as the
-- step on that resource's entry says and leaves those of every other resource as they were.
pub resource_step_refines :
    (t : CanLeaseTable) (op : Op) (j : ResourceId)
    → leases_at (step t op) j
      ≡ (if target op == j then step_in (leases_at t (target op)) op else leases_at t j)
unfolding step step_in
resource_step_refines t (reserving r session owner mode fresh) j =
    reserve-Moves t j r session owner mode fresh
resource_step_refines t (committing v fresh) j = commit-Moves t j v fresh
resource_step_refines t (cancelling v) j = cancel-Moves t j v
resource_step_refines t (releasing r session token) j = release-Moves t j r session token
