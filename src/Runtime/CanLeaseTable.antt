-- ===== src/Runtime/CanLeaseTable.antt =====
-- crates/robot-hal-runtime/src/can_lease_table.rs: shared observe leases, one control lease and an
-- exclusive maintenance lease for each CAN resource, reserved first and committed later.
-- A method on `&mut self` returns the new table beside its result; the UUIDs that `LeaseId::new`
-- draws are arguments. What a method does to the entry of one resource is a function of its own.
pub mod Steps
pub mod Exclusion
pub mod Fencing
pub mod Outcomes
pub mod Opened
mod Tests
use robot_hal.Prelude.{
  ℕ, String, Bool, true, false, not, ◌&&◌, Option, none, some, get, insert, remove, values,
  is_some_and, unwrap_or, length, keep, ltb, eqb, ◌==◌, if◌then◌else◌,
}
use robot_hal.Core.Names.{
  ResourceId, SessionId, OwnerId, LeaseId, LeaseMode, observe, control, maintenance, conflict,
  internal, resource_id_eq, session_id_eq, owner_id_eq, lease_id_eq, lease_mode_eq,
}
use robot_hal.Core.Lease.{LeaseToken, lease_token_eq, checked_succ}
use robot_hal.Core.Error.{HalError, HalResult, ok, err, ◌>>=◌, ◌>>◌, fail_if, with_resource_id}
use robot_hal.Runtime.Errors.{runtime_error}
use robot_hal.Runtime.CanLeases.{
  CanLeaseTable, CanReservation, LeaseEntry, PendingEntry, ResourceLeases, conflict_error,
  has_no_lease, is_incompatible, is_of, is_taken, no_leases, session_closed,
}

abbrev pub pend : ResourceLeases → SessionId → OwnerId → LeaseMode → LeaseId → ResourceLeases
pend l session owner mode fresh = record l {
  pending =
      insert session (record { reservation_id = fresh; owner_id = owner; mode = mode }) l.pending;
}

unfoldable pub reserve_in :
    ResourceLeases
    → ResourceId
    → SessionId
    → OwnerId
    → LeaseMode
    → LeaseId
    → ResourceLeases × HalResult CanReservation
unfolding is_taken is_incompatible
reserve_in l r session owner mode fresh =
    if is_taken l session
    then (l, err (conflict_error r "the session already owns or is opening a CAN lease"))
    else if is_incompatible l mode
    then (
      l,
      err (conflict_error r "the CAN lease is incompatible with an active or provisional lease"),
    )
    else (
      pend l session owner mode fresh,
      ok (record {
        resource_id = r;
        session_id = session;
        owner_id = owner;
        reservation_id = fresh;
        mode = mode;
      }),
    )

-- `entry(..).or_default()` stays in the table on the error paths too.
unfoldable pub reserve :
    CanLeaseTable
    → ResourceId
    → SessionId
    → OwnerId
    → LeaseMode
    → LeaseId
    → CanLeaseTable × HalResult CanReservation
reserve t r session owner mode fresh =
    let (l, result) =
      reserve_in (unwrap_or no_leases (get r t.resources)) r session owner mode fresh in
    (record { resources = insert r l t.resources }, result)

abbrev pub is_reserved_by : CanReservation → PendingEntry → Bool
is_reserved_by v p =
    p.reservation_id == v.reservation_id && (p.owner_id == v.owner_id && p.mode == v.mode)

-- Files a new lease by its mode.
abbrev grant : ResourceLeases → LeaseMode → LeaseEntry → ResourceLeases
grant l observe entry = record l { observes = insert entry.session_id entry l.observes }
grant l control entry = record l { controller = some entry }
grant l maintenance entry = record l { maintainer = some entry }

abbrev pub drop_pending : ResourceLeases → SessionId → ResourceLeases
drop_pending l session = record l { pending = remove session l.pending }

abbrev pub exhausted_error : ResourceId → HalError
exhausted_error r =
    with_resource_id
      (runtime_error "runtime.lease.generation_exhausted" internal "can.open" false
        "the CAN lease generation reached u64::MAX")
      r

abbrev pub lease_entry : CanReservation → LeaseId → ℕ → LeaseEntry
lease_entry v fresh generation = record {
  session_id = v.session_id;
  owner_id = v.owner_id;
  token = record { lease_id = fresh; generation = generation; mode = v.mode };
}

unfoldable pub commit_in :
    ResourceLeases → CanReservation → LeaseId → ResourceLeases × HalResult LeaseToken
commit_in l v fresh = elim (get v.session_id l.pending) [
  | none ↦ (l, err (conflict_error v.resource_id "the CAN reservation is no longer pending"))
  | some p ↦
      if not (is_reserved_by v p)
      then (l, err (conflict_error v.resource_id "the CAN reservation identity is invalid"))
      else elim (checked_succ l.last_generation) [
        | none ↦ (drop_pending l v.session_id, err (exhausted_error v.resource_id))
        | some next ↦ (
          grant (record (drop_pending l v.session_id) { last_generation = next }) v.mode
              (lease_entry v fresh next),
          ok (lease_entry v fresh next).token,
        )
      ]
]

unfoldable pub commit :
    CanLeaseTable → CanReservation → LeaseId → CanLeaseTable × HalResult LeaseToken
commit t v fresh = elim (get v.resource_id t.resources) [
  | none ↦ (t, err (conflict_error v.resource_id "the CAN reservation is no longer pending"))
  | some l ↦
      let (l', result) = commit_in l v fresh in
      (record { resources = insert v.resource_id l' t.resources }, result)
]

unfoldable pub cancel : CanLeaseTable → CanReservation → CanLeaseTable × Bool
cancel t v = elim (get v.resource_id t.resources) [
  | none ↦ (t, false)
  | some l ↦
      if not (is_some_and (get v.session_id l.pending) (is_reserved_by v))
      then (t, false)
      else let l' = drop_pending l v.session_id in
        if eqb l'.last_generation 0 && has_no_lease l'
        then (record { resources = remove v.resource_id t.resources }, true)
        else (record { resources = insert v.resource_id l' t.resources }, true)
]

abbrev pub holds : LeaseToken → LeaseEntry → Bool
holds token l = l.token == token

unfoldable pub release_in : ResourceLeases → SessionId → LeaseToken → ResourceLeases × Bool
release_in l session token =
    if is_some_and (get session l.observes) (holds token)
    then (record l { observes = remove session l.observes }, true)
    else if is_some_and l.controller (λ e. is_of session e && holds token e)
    then (record l { controller = none }, true)
    else if is_some_and l.maintainer (λ e. is_of session e && holds token e)
    then (record l { maintainer = none }, true)
    else (l, false)

unfoldable pub release : CanLeaseTable → ResourceId → SessionId → LeaseToken → CanLeaseTable × Bool
release t r session token = elim (get r t.resources) [
  | none ↦ (t, false)
  | some l ↦
      let (l', result) = release_in l session token in
      (record { resources = insert r l' t.resources }, result)
]

unfoldable pub mode_allows : LeaseMode → LeaseMode → Bool
mode_allows observe observe = true
mode_allows control observe = true
mode_allows control control = true
mode_allows maintenance observe = true
mode_allows maintenance control = true
mode_allows maintenance maintenance = true
mode_allows _ _ = false

abbrev or_else {ℓ} : {A : Type ℓ} → Option A → Option A → Option A
or_else (some a) o = some a
or_else none o = o

abbrev pub only_if {ℓ} : {A : Type ℓ} → Option A → (A → Bool) → Option A
only_if none p = none
only_if (some a) p = if p a then some a else none

-- The lease that `validate` looks at.
unfoldable pub active_lease : ResourceLeases → SessionId → Option LeaseEntry
active_lease l session =
    or_else (or_else (get session l.observes) (only_if l.controller (is_of session)))
      (only_if l.maintainer (is_of session))

abbrev lease_error : String → ResourceId → String → String → HalError
lease_error name r operation message =
    with_resource_id (runtime_error name conflict operation false message) r

unfoldable pub validate_active :
    LeaseEntry → ResourceId → OwnerId → LeaseToken → LeaseMode → String → HalResult (Unit {0})
unfolding mode_allows
validate_active active r owner token required operation = do
  fail_if (not (active.owner_id == owner)) (
      lease_error "runtime.lease.owner_mismatch" r operation
        "the CAN lease owner does not match the session owner")
  fail_if (not (active.token == token)) (
      lease_error
        (if ltb token.generation active.token.generation
          then "runtime.lease.stale_generation"
          else "runtime.lease.invalid_token")
        r operation "the CAN lease token does not match the active lease")
  fail_if (not (mode_allows active.token.mode required)) (
      lease_error "runtime.lease.mode_denied" r operation
        "the CAN lease mode does not permit this operation")
  ok tt

unfoldable pub validate :
    CanLeaseTable
    → ResourceId
    → SessionId
    → OwnerId
    → LeaseToken
    → LeaseMode
    → String
    → HalResult (Unit {0})
validate t r session owner token required operation = elim (get r t.resources) [
  | none ↦ err (session_closed r operation)
  | some l ↦ elim (active_lease l session) [
    | none ↦
        if ltb token.generation l.last_generation
        then err (
            lease_error "runtime.lease.stale_generation" r operation
              "the lease generation is no longer active")
        else err (session_closed r operation)
    | some active ↦ validate_active active r owner token required operation
  ]
]

unfoldable retained_generation_count : CanLeaseTable → ℕ
retained_generation_count t = length (keep (λ l. ltb 0 l.last_generation) (values t.resources))
