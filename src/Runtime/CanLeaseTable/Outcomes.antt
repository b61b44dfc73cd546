-- ===== src/Runtime/CanLeaseTable/Outcomes.antt =====
-- What `reserve`, `cancel` and `validate` of the CAN lease table return.
use robot_hal.Prelude.{
  ℕ, ◌≤◌, ◌≡◌, ◌≢◌, ◌↔◌, refl, String, inl, inr, Bool, true, false, none, some, List, [], ◌∷◌,
  arith, Option, is_some, is_some_and, ==_iff, Option-cases, Map, get, values, tally, tally-any,
  any, remove-insert, get-insert, ==_refl,
}
use robot_hal.Core.Names.{
  ResourceId, SessionId, OwnerId, LeaseId, LeaseMode, observe, control, maintenance, resource_id_eq,
  session_id_eq, owner_id_eq, lease_id_eq, lease_mode_eq, eq_resource_id_iff, eq_owner_id_iff,
}
use robot_hal.Core.Lease.{LeaseToken, lease_token_eq, eq_lease_token_iff}
use robot_hal.Core.Error.{is_ok, ok}
use robot_hal.Runtime.CanLeaseTable.{
  reserve_in, reserve, cancel, validate, validate_active, active_lease, mode_allows, pend,
}
use robot_hal.Runtime.CanLeases.{
  CanReservation, ResourceLeases, CanLeaseTable, PendingEntry, LeaseEntry, has_mode, is_of,
  is_taken, is_incompatible, no_leases,
}
use robot_hal.Runtime.CanLeaseTable.Steps.{
  reserving, cancelling, step_in, step, cancel_in, leases_at, resource_step_refines, is_vacant-nil,
}
use robot_hal.Runtime.CanLeaseTable.Exclusion.{maintainers, controllers, observers, every_none}

-- Which leases a new one tolerates beside it, reservations included.
abbrev pub Compatible : LeaseMode → ResourceLeases → Type 0
Compatible observe l = maintainers l ≡ 0
Compatible control l = (maintainers l ≡ 0) × (controllers l ≡ 0)
Compatible maintenance l = (maintainers l ≡ 0) × (controllers l ≡ 0) × (observers l ≡ 0)

any-tally : (p : PendingEntry → Bool) (xs : List PendingEntry) → tally p xs ≡ 0 → any p xs ≡ false
any-tally p [] h = refl
any-tally p (x ∷ xs) h = ground (arith, any-tally p xs)

pending_none :
    (m : Map SessionId PendingEntry)
    → tally (has_mode observe) (values m) ≡ 0
    → tally (has_mode control) (values m) ≡ 0
    → tally (has_mode maintenance) (values m) ≡ 0
    → m ≡ []
pending_none [] a b c = refl
pending_none ((k, v) ∷ m) a b c = ground arith

is_incompatible_iff :
    (l : ResourceLeases) (mode : LeaseMode) → (is_incompatible l mode ≡ false) ↔ Compatible mode l
unfolding is_incompatible
is_incompatible_iff l observe = ground (
  arith,
  any-tally (has_mode maintenance) (values l.pending),
  tally-any (has_mode maintenance) (values l.pending),
)
is_incompatible_iff l control = ground (
  arith,
  any-tally (has_mode maintenance) (values l.pending),
  tally-any (has_mode maintenance) (values l.pending),
  any-tally (has_mode control) (values l.pending),
  tally-any (has_mode control) (values l.pending),
)
is_incompatible_iff l maintenance = ground (
  arith,
  is_vacant-nil l.pending,
  is_vacant-nil l.observes,
  pending_none l.pending,
  every_none l.observes,
)

-- An exclusive lease, if there is one, belongs to another session.
abbrev pub OfOther : SessionId → Option LeaseEntry → Type 0
OfOther session none = Unit {0}
OfOther session (some entry) = entry.session_id ≢ session

-- The session neither opens nor has a lease of any mode.
pub record IsUnknown (l : ResourceLeases) (session : SessionId) : Type 0 where
  pub not_opening : get session l.pending ≡ none
  pub not_observing : get session l.observes ≡ none
  pub not_controlling : OfOther session l.controller
  pub not_maintaining : OfOther session l.maintainer

OfOther-iff :
    (session : SessionId) (o : Option LeaseEntry)
    → (is_some_and o (is_of session) ≡ false) ↔ OfOther session o
OfOther-iff session none = ground arith
OfOther-iff session (some entry) = ground (arith, ==_iff entry.session_id session)

is_some_iff {ℓ} : {A : Type ℓ} (o : Option A) → (is_some o ≡ false) ↔ (o ≡ none)
is_some_iff none = ground arith
is_some_iff (some x) = ground arith

pub is_taken_iff :
    (l : ResourceLeases) (session : SessionId) → (is_taken l session ≡ false) ↔ IsUnknown l session
unfolding is_taken
is_taken_iff l session =
    let p = is_some_iff (get session l.pending) in
    let o = is_some_iff (get session l.observes) in
    let c = OfOther-iff session l.controller in
    let m = OfOther-iff session l.maintainer in
    (
      λ h. record {
        not_opening = p.0 (ground (arith, h));
        not_observing = o.0 (ground (arith, h));
        not_controlling = c.0 (ground (arith, h));
        not_maintaining = m.0 (ground (arith, h));
      },
      λ u. ground (
        arith,
        p.1 u.not_opening,
        o.1 u.not_observing,
        c.1 u.not_controlling,
        m.1 u.not_maintaining,
      ),
    )

-- `reserve` succeeds exactly when the session neither holds nor is opening a lease of the resource
-- and the leases in place, reservations included, tolerate the new mode: none for maintenance
-- beside any mode, none for control beside control, and none at all beside maintenance.
pub reserve_iff :
    (t : CanLeaseTable) (r : ResourceId) (session : SessionId) (owner : OwnerId) (mode : LeaseMode)
    (fresh : LeaseId)
    → (is_ok (reserve t r session owner mode fresh).1 ≡ true)
      ↔ (IsUnknown (leases_at t r) session × Compatible mode (leases_at t r))
unfolding reserve reserve_in
reserve_iff t r session owner mode fresh =
    ground (arith, is_incompatible_iff (leases_at t r) mode, is_taken_iff (leases_at t r) session)

module _ (l : ResourceLeases) (r : ResourceId) (session : SessionId) (owner : OwnerId)
    (mode : LeaseMode) (fresh : LeaseId) where
  abbrev pub reservation : CanReservation
  reservation = record {
    resource_id = r;
    session_id = session;
    owner_id = owner;
    reservation_id = fresh;
    mode = mode;
  }

  pub reserve_in_ok :
      (v : CanReservation)
      → (reserve_in l r session owner mode fresh).1 ≡ ok v
      → (get session l.pending ≡ none)
        × ((reserve_in l r session owner mode fresh).0 ≡ pend l session owner mode fresh)
        × (v ≡ reservation)
  unfolding reserve_in
  reserve_in_ok v h = ground (arith, Option-cases (get session l.pending))

  pub pended :
      get session (pend l session owner mode fresh).pending
      ≡ some (record { reservation_id = fresh; owner_id = owner; mode = mode })
  pended =
      let p : PendingEntry = record { reservation_id = fresh; owner_id = owner; mode = mode } in
      ground (arith, ==_refl session, get-insert session session p l.pending)

  cancel_in-pend :
      get session l.pending ≡ none → cancel_in (pend l session owner mode fresh) reservation ≡ l
  unfolding cancel_in
  cancel_in-pend h =
      let p : PendingEntry = record { reservation_id = fresh; owner_id = owner; mode = mode } in
      ground (
        arith,
        pended,
        ==_refl fresh,
        ==_refl owner,
        ==_refl mode,
        remove-insert session p l.pending h,
      )

  -- `cancel` answers as the entry of the resource says.
  cancel-true :
      (t : CanLeaseTable)
      → get r t.resources ≡ some (pend l session owner mode fresh)
      → (cancel t reservation).1 ≡ true
  unfolding cancel
  cancel-true t h = ground (arith, pended, ==_refl fresh, ==_refl owner, ==_refl mode)

-- Cancelling a fresh reservation succeeds and leaves every resource as it was before it.
cancel-reserve :
    (t : CanLeaseTable) (r j : ResourceId) (session : SessionId) (owner : OwnerId)
    (mode : LeaseMode) (fresh : LeaseId) (v : CanReservation)
    → (reserve t r session owner mode fresh).1 ≡ ok v
    → let t' = (reserve t r session owner mode fresh).0 in
      ((cancel t' v).1 ≡ true) × (leases_at (cancel t' v).0 j ≡ leases_at t j)
unfolding reserve step step_in
cancel-reserve t r j session owner mode fresh v h =
    let t' = (reserve t r session owner mode fresh).0 in
    let l = leases_at t r in
    let (vacant, pending, e) = reserve_in_ok l r session owner mode fresh v h in
    (
      rw e (
          cancel-true l r session owner mode fresh t' (
            ground (
              arith,
              pending,
              ==_refl r,
              get-insert r r (reserve_in l r session owner mode fresh).0 t.resources,
            ))),
      rw e (
          ground (
            arith,
            pending,
            ==_refl r,
            eq_resource_id_iff r j,
            resource_step_refines t' (cancelling (reservation l r session owner mode fresh)) j,
            resource_step_refines t (reserving r session owner mode fresh) r,
            resource_step_refines t (reserving r session owner mode fresh) j,
            cancel_in-pend l r session owner mode fresh vacant,
          )),
    )

-- The order of the modes: control includes observing, and maintenance includes control.
abbrev pub rank : LeaseMode → ℕ
rank observe = 0
rank control = 1
rank maintenance = 2

active_lease-no_leases : (session : SessionId) → active_lease no_leases session ≡ none
unfolding active_lease get
active_lease-no_leases session = refl

mode_allows_iff :
    (actual required : LeaseMode)
    → (mode_allows actual required ≡ true) ↔ (rank required ≤ rank actual)
unfolding mode_allows
mode_allows_iff actual required = ground arith

validate_active_iff :
    (entry : LeaseEntry) (r : ResourceId) (owner : OwnerId) (token : LeaseToken)
    (required : LeaseMode) (operation : String)
    → (validate_active entry r owner token required operation ≡ ok tt)
      ↔ ((entry.owner_id ≡ owner) × (entry.token ≡ token) × (rank required ≤ rank token.mode))
unfolding validate_active
validate_active_iff entry r owner token required operation = ground (
  arith,
  eq_owner_id_iff entry.owner_id owner,
  eq_lease_token_iff entry.token token,
  mode_allows_iff entry.token.mode required,
)

-- `validate` accepts exactly the owner and the token of the session's active lease, for operations
-- whose required mode is not above the mode of that token.
pub validate_can_iff :
    (t : CanLeaseTable) (r : ResourceId) (session : SessionId) (owner : OwnerId)
    (token : LeaseToken) (required : LeaseMode) (operation : String)
    → (validate t r session owner token required operation ≡ ok tt) ↔ (
        (entry : LeaseEntry) × (active_lease (leases_at t r) session ≡ some entry)
        × (entry.owner_id ≡ owner)
        × (entry.token ≡ token)
        × (rank required ≤ rank token.mode))
unfolding validate
validate_can_iff t r session owner token required operation =
    elim (Option-cases (get r t.resources)) [
      | inl e ↦ ground (arith, active_lease-no_leases session)
      | inr (l, e) ↦ elim (Option-cases (active_lease l session)) [
        | inl f ↦ ground arith
        | inr (entry, f) ↦
            let accepts = validate_active_iff entry r owner token required operation in
            (
              λ v. let (o, k, m) = accepts.0 (ground arith) in (entry, ground arith, o, k, m),
              λ (a, x, o, k, m). ground (arith, accepts),
            )
      ]
    ]
