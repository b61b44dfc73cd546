-- ===== src/Runtime/LeaseTable/Fencing.antt =====
-- Fencing: a token whose lease has ended is refused from then on.
use robot_hal.Prelude.{
  ℕ, ◌≤◌, ◌<◌, ◌≡◌, sym, true, false, String, Option, none, some, inl, inr, List, [], ◌∷◌,
  Bool-cases, arith, ◌==◌, ==_refl, get, subst, Option-cases,
}
use robot_hal.Core.Names.{
  ResourceId, SessionId, OwnerId, resource_id_eq, session_id_eq, owner_id_eq, eq_resource_id_iff,
}
use robot_hal.Core.Lease.{LeaseToken, lease_token_eq, eq_lease_token_iff}
use robot_hal.Core.Error.{is_ok}
use robot_hal.Runtime.LeaseTable.{ActiveLease, LeaseTable, current_generation, validate, release}
use robot_hal.Runtime.LeaseTable.Slot.{
  Slot, slot, Op, reserving, committing, quarantining, releasing, slot_step, step, step_refines,
}
use robot_hal.Runtime.LeaseTable.Invariant.{IsSound, IsValid, step-IsValid, run}

-- The slot has left generation `g` behind: no lease of it is active, and none will be given out.
abbrev Past : ℕ → Option ActiveLease → Type 0
Past g none = Unit {0}
Past g (some lease) = g < lease.token.generation

pub record IsFenced (g : ℕ) (s : Slot) : Type 0 where
  pub reached : g ≤ s.generation
  pub past : Past g s.lease

slot_step-IsFenced :
    (g : ℕ) (s : Slot) (op : Op) → IsSound s → IsFenced g s → IsFenced g (slot_step s op)
unfolding slot_step
slot_step-IsFenced g s (reserving session owner fresh) h f = ground arith
slot_step-IsFenced g s (committing session token) h f = ground arith
slot_step-IsFenced g s (quarantining session token) h f = ground arith
slot_step-IsFenced g s (releasing session) h f = ground arith

run-IsFenced :
    (g : ℕ) (j : ResourceId) (t : LeaseTable) (ops : List (ResourceId × Op))
    → IsValid t
    → IsFenced g (slot t j)
    → IsValid (run t ops) × IsFenced g (slot (run t ops) j)
unfolding run
run-IsFenced g j t [] h f = (h, f)
run-IsFenced g j t ((r, op) ∷ rest) h f =
    run-IsFenced g j (step t r op) rest (step-IsValid t r op h) (
      rw (step_refines t r j op) (elim (Bool-cases (r == j)) [
        | inl e ↦ rw e (
            slot_step-IsFenced g (slot t r) op (h r)
              (subst (λ k. IsFenced g (slot t k)) (sym ((eq_resource_id_iff r j).0 e)) f))
        | inr e ↦ rw e f
      ]))

fenced_refused :
    (t : LeaseTable) (r : ResourceId) (session : SessionId) (owner : OwnerId) (token : LeaseToken)
    (operation : String)
    → IsSound (slot t r)
    → IsFenced token.generation (slot t r)
    → is_ok (validate t r session owner token operation) ≡ false
unfolding validate current_generation
fenced_refused t r session owner token operation h f = elim (Option-cases (get r t.active)) [
  | inl e ↦ ground arith
  | inr (a, e) ↦ ground (arith, eq_lease_token_iff a.token token)
]

release-IsFenced :
    (t : LeaseTable) (r : ResourceId) (lease : ActiveLease)
    → IsSound (slot t r)
    → get r t.active ≡ some lease
    → lease.committed ≡ true
    → IsFenced lease.token.generation (slot (release t r lease.session_id).0 r)
unfolding slot_step step
release-IsFenced t r lease h held c =
    rw (step_refines t r r (releasing lease.session_id), ==_refl r)
      (ground (arith, ==_refl lease.session_id))

-- In a valid table, once a committed lease has been released, its token is refused by `validate`
-- for every session, owner and operation, whatever operations come after.
pub release_fences :
    (t : LeaseTable) (r : ResourceId) (lease : ActiveLease) (ops : List (ResourceId × Op))
    (session : SessionId) (owner : OwnerId) (operation : String)
    → IsValid t
    → get r t.active ≡ some lease
    → lease.committed ≡ true
    → is_ok
        (validate (run (release t r lease.session_id).0 ops) r session owner lease.token operation)
      ≡ false
unfolding step release
release_fences t r lease ops session owner operation h held c =
    let after = (release t r lease.session_id).0 in
    let kept =
      run-IsFenced lease.token.generation r after ops
        (step-IsValid t r (releasing lease.session_id) h)
        (release-IsFenced t r lease (h r) held c) in
    fenced_refused (run after ops) r session owner lease.token operation (kept.0 r) kept.1
