-- ===== src/Runtime/LeaseTable/Outcomes.antt =====
-- What `reserve_control`, `validate` and `release` return and leave behind.
use robot_hal.Prelude.{
  ◌+◌, ◌≤◌, ◌<◌, ◌≡◌, ◌≢◌, ◌↔◌, Bool, String, none, some, inl, inr, arith, ==_refl, get, get-insert,
  Option-cases,
}
use robot_hal.Core.Names.{
  ResourceId, SessionId, OwnerId, LeaseId, control, resource_id_eq, session_id_eq, owner_id_eq,
  eq_resource_id_iff, eq_session_id_iff, eq_owner_id_iff,
}
use robot_hal.Core.Lease.{LeaseToken, u64_max, lease_token_eq, eq_lease_token_iff}
use robot_hal.Core.Error.{ok, err}
use robot_hal.Runtime.LeaseTable.{
  LeaseTable, conflict_error, exhausted_error, current_generation, reserve_control, commit,
  validate, release,
}
use robot_hal.Runtime.LeaseTable.Slot.{
  first_lease, slot, reserving, committing, releasing, slot_step, step, step_refines,
}
use robot_hal.Runtime.LeaseTable.Invariant.{IsValid}

-- In a valid table `validate` accepts a session, owner and token exactly when they are those of the
-- resource's active lease.
pub validate_iff :
    (t : LeaseTable) (r : ResourceId) (session : SessionId) (owner : OwnerId) (token : LeaseToken)
    (operation : String)
    → IsValid t
    → (validate t r session owner token operation ≡ ok tt) ↔ (
        (committed : Bool) × (get r t.active
          ≡ some (record {
            session_id = session;
            owner_id = owner;
            token = token;
            committed = committed;
          })))
unfolding validate current_generation
validate_iff t r session owner token operation h = elim (Option-cases (get r t.active)) [
  | inl e ↦ ground (arith, h r)
  | inr (a, e) ↦
      let sound = h r in
      (
        λ v. (
          a.committed,
          ground (
            arith,
            sound,
            eq_session_id_iff a.session_id session,
            eq_owner_id_iff a.owner_id owner,
            eq_lease_token_iff a.token token,
          ),
        ),
        λ (c, k). ground (arith, sound, ==_refl session, ==_refl owner, ==_refl token),
      )
]

-- `reserve_control` refuses a resource with an active lease, and one whose generation has reached
-- `u64::MAX`, each with its own error and without a change to any slot; otherwise it returns a
-- control token of the next generation, and that token passes `validate` at once.
reserve_control_outcome :
    (t : LeaseTable) (r : ResourceId) (session : SessionId) (owner : OwnerId) (fresh : LeaseId)
    (operation : String)
    → let (t', result) = reserve_control t r session owner fresh in
      let token : LeaseToken = record {
        lease_id = fresh;
        generation = current_generation t r + 1;
        mode = control;
      } in
      (get r t.active ≢ none → (result ≡ err (conflict_error r)) × (t' ≡ t))
      × (get r t.active ≡ none
          → u64_max ≤ current_generation t r
          → (result ≡ err (exhausted_error r)) × ((j : ResourceId) → slot t' j ≡ slot t j))
      × (get r t.active ≡ none
          → current_generation t r < u64_max
          → (result ≡ ok token) × (validate t' r session owner token operation ≡ ok tt))
unfolding reserve_control validate current_generation
reserve_control_outcome t r session owner fresh operation = (
  ground arith,
  λ e full. (
    ground arith,
    λ j. ground (
      arith,
      eq_resource_id_iff r j,
      get-insert r j (current_generation t r) t.current_generations,
    ),
  ),
  λ e room. (
    ground arith,
    ground (
      arith,
      ==_refl r,
      ==_refl session,
      ==_refl owner,
      get-insert r r (current_generation t r + 1) t.current_generations,
      get-insert r r (first_lease session owner fresh (current_generation t r + 1)) t.active,
      ==_refl (first_lease session owner fresh (current_generation t r + 1)).token,
    ),
  ),
)

-- Releasing a reservation that was never committed leaves every slot as it was before the
-- reservation, generation included; once it was committed, its release keeps the new generation.
pub release_after_reserve :
    (t : LeaseTable) (r j : ResourceId) (session : SessionId) (owner : OwnerId) (fresh : LeaseId)
    → get r t.active ≡ none
    → current_generation t r < u64_max
    → let t' = (reserve_control t r session owner fresh).0 in
      let token : LeaseToken = record {
        lease_id = fresh;
        generation = current_generation t r + 1;
        mode = control;
      } in
      (slot (release t' r session).0 j ≡ slot t j)
      × (slot (release (commit t' r session token).0 r session).0 r
          ≡ record { generation = current_generation t r + 1; lease = none })
unfolding step slot_step
release_after_reserve t r j session owner fresh free room =
    let t' = (reserve_control t r session owner fresh).0 in
    let token : LeaseToken = record {
      lease_id = fresh;
      generation = current_generation t r + 1;
      mode = control;
    } in
    let t'' = (commit t' r session token).0 in
    (
      ground (
        arith,
        step_refines t' r j (releasing session),
        step_refines t r r (reserving session owner fresh),
        step_refines t r j (reserving session owner fresh),
        eq_resource_id_iff r j,
        ==_refl r,
        ==_refl session,
      ),
      ground (
        arith,
        step_refines t'' r r (releasing session),
        step_refines t' r r (committing session token),
        step_refines t r r (reserving session owner fresh),
        ==_refl r,
        ==_refl session,
        ==_refl token,
      ),
    )
