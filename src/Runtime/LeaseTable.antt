-- ===== src/Runtime/LeaseTable.antt =====
-- crates/robot-hal-runtime/src/lease_table.rs: one exclusive control lease for each resource.
-- A method on `&mut self` returns the new table beside its result. `LeaseId::new` draws a UUID from
-- outside the repository: the fresh identifier is an argument of the methods that call it.
pub mod Slot
pub mod Invariant
pub mod Fencing
pub mod Outcomes
pub mod Active
mod Tests
use Prim.Native.String.{◌++◌ as str_append}
use robot_hal.Prelude.{
  ℕ, ◌-◌, String, Bool, true, false, not, ◌&&◌, ◌||◌, none, some, [], Map, get, insert, remove,
  contains_key, unwrap_or, length, ltb, eqb, ◌==◌, decimal, if◌then◌else◌,
}
use robot_hal.Core.Names.{
  ResourceId, SessionId, OwnerId, LeaseId, control, conflict, internal, resource_id_eq,
  session_id_eq, owner_id_eq,
}
use robot_hal.Core.Lease.{LeaseToken, lease_token_eq, checked_succ}
use robot_hal.Core.Error.{
  HalError, HalResult, ok, err, ◌>>=◌, ◌>>◌, fail_if, ok_or, with_resource_id,
}
use robot_hal.Runtime.Errors.{runtime_error}

pub record ActiveLease : Type 0 where
  pub session_id : SessionId
  pub owner_id : OwnerId
  pub token : LeaseToken
  pub committed : Bool

pub record LeaseTable : Type 0 where
  pub current_generations : Map ResourceId ℕ
  pub active : Map ResourceId ActiveLease

-- `LeaseTable::default`
abbrev pub empty : LeaseTable
empty = record { current_generations = []; active = [] }

abbrev pub conflict_error : ResourceId → HalError
conflict_error r =
    with_resource_id
      (runtime_error "runtime.lease.conflict" conflict "serial.open" false
        "the resource already has an active control lease")
      r

abbrev pub exhausted_error : ResourceId → HalError
exhausted_error r =
    with_resource_id
      (runtime_error "runtime.lease.generation_exhausted" internal "serial.open" false
        "the resource lease generation reached u64::MAX")
      r

-- `current_generation`, also the `unwrap_or_default` of `validate`
unfoldable pub current_generation : LeaseTable → ResourceId → ℕ
current_generation t r = unwrap_or 0 (get r t.current_generations)

-- The `entry(..).or_default()` of `reserve_control` stays in the table when the increment fails.
unfoldable pub reserve_control :
    LeaseTable → ResourceId → SessionId → OwnerId → LeaseId → LeaseTable × HalResult LeaseToken
unfolding current_generation
reserve_control t r session owner fresh =
    if contains_key r t.active
    then (t, err (conflict_error r))
    else elim (checked_succ (current_generation t r)) [
      | none ↦ (
        record t { current_generations = insert r (current_generation t r) t.current_generations },
        err (exhausted_error r),
      )
      | some next ↦
          let token : LeaseToken = record { lease_id = fresh; generation = next; mode = control } in
          (
            record {
              current_generations = insert r next t.current_generations;
              active =
                  insert r
                    (record {
                      session_id = session;
                      owner_id = owner;
                      token = token;
                      committed = false;
                    })
                    t.active;
            },
            ok token,
          )
    ]

unfoldable pub commit : LeaseTable → ResourceId → SessionId → LeaseToken → LeaseTable × Bool
commit t r session token = elim (get r t.active) [
  | none ↦ (t, false)
  | some lease ↦
      if not (lease.session_id == session) || not (lease.token == token)
      then (t, false)
      else (record t { active = insert r (record lease { committed = true }) t.active }, true)
]

unfoldable pub quarantine : LeaseTable → ResourceId → SessionId → LeaseToken → LeaseTable × Bool
quarantine t r session token = elim (get r t.active) [
  | none ↦ (t, false)
  | some lease ↦
      if not (lease.session_id == session) || not (lease.token == token)
      then (t, false)
      else (record t { active = insert r (record lease { committed = true }) t.active }, true)
]

abbrev stale_error : ResourceId → LeaseToken → ℕ → String → HalError
stale_error r lease current operation =
    with_resource_id
      (runtime_error "runtime.lease.stale_generation" conflict operation false (
        str_append "lease generation " (
          str_append (decimal lease.generation)
            (str_append " is older than current generation " (decimal current)))))
      r

abbrev closed_error : ResourceId → String → HalError
closed_error r operation =
    with_resource_id
      (runtime_error "runtime.session.closed" conflict operation false
        "the serial session is closed")
      r

abbrev wrong_session_error : ResourceId → String → HalError
wrong_session_error r operation =
    with_resource_id
      (runtime_error "runtime.lease.invalid_token" conflict operation false
        "the lease does not belong to the requested session")
      r

abbrev wrong_owner_error : ResourceId → String → HalError
wrong_owner_error r operation =
    with_resource_id
      (runtime_error "runtime.lease.owner_mismatch" conflict operation false
        "the lease owner does not match the session owner")
      r

abbrev wrong_token_error : ResourceId → String → HalError
wrong_token_error r operation =
    with_resource_id
      (runtime_error "runtime.lease.invalid_token" conflict operation false
        "the lease token does not match the active lease")
      r

unfoldable pub validate :
    LeaseTable → ResourceId → SessionId → OwnerId → LeaseToken → String → HalResult (Unit {0})
unfolding current_generation
validate t r session owner lease operation = do
  let current = current_generation t r
  fail_if (ltb lease.generation current) (stale_error r lease current operation)
  active ← ok_or (get r t.active) (closed_error r operation)
  fail_if (not (active.session_id == session)) (wrong_session_error r operation)
  fail_if (not (active.owner_id == owner)) (wrong_owner_error r operation)
  fail_if (not (active.token == lease)) (wrong_token_error r operation)
  ok tt

-- The roll-back of an uncommitted reservation. `generation - 1` runs only at `generation ≢ 1`.
roll_back : Map ResourceId ℕ → ResourceId → ActiveLease → Map ResourceId ℕ
roll_back generations r lease =
    let generation = lease.token.generation in
    elim (get r generations) [
      | none ↦ generations
      | some current ↦
          if not lease.committed && eqb current generation
          then if eqb generation 1
            then remove r generations
            else insert r (generation - 1) generations
          else generations
    ]

unfoldable pub release : LeaseTable → ResourceId → SessionId → LeaseTable × Bool
unfolding roll_back
release t r session = elim (get r t.active) [
  | none ↦ (t, false)
  | some lease ↦ if not (lease.session_id == session) then (t, false) else (
    record {
      current_generations = roll_back t.current_generations r lease;
      active = remove r t.active;
    },
    lease.committed,
  )
]

unfoldable retained_generation_count : LeaseTable → ℕ
retained_generation_count t = length t.current_generations
