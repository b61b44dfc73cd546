-- ===== src/Runtime/LeaseTable/Invariant.antt =====
-- What holds of a lease table between two operations, and after any history.
use robot_hal.Prelude.{
  ℕ, ◌≤◌, ◌≡◌, Option, none, some, inl, inr, List, [], ◌∷◌, Bool-cases, arith, ◌==◌, get,
}
use robot_hal.Core.Names.{ResourceId, control, resource_id_eq}
use robot_hal.Core.Lease.{u64_max}
use robot_hal.Runtime.LeaseTable.{ActiveLease, LeaseTable, empty, current_generation}
use robot_hal.Runtime.LeaseTable.Slot.{
  Slot, slot, Op, reserving, committing, quarantining, releasing, slot_step, step, step_refines,
}

-- A lease holds the control mode and the newest generation, which is never 0.
abbrev Fits : ℕ → Option ActiveLease → Type 0
Fits generation none = Unit {0}
Fits generation (some lease) =
    (lease.token.generation ≡ generation) × (1 ≤ generation) × (lease.token.mode ≡ control)

pub record IsSound (s : Slot) : Type 0 where
  pub in_range : s.generation ≤ u64_max
  pub fits : Fits s.generation s.lease

abbrev pub IsValid : LeaseTable → Type 0
IsValid t = (r : ResourceId) → IsSound (slot t r)

slot_step-IsSound : (s : Slot) (op : Op) → IsSound s → IsSound (slot_step s op)
unfolding slot_step
slot_step-IsSound s (reserving session owner fresh) h = ground arith
slot_step-IsSound s (committing session token) h = ground arith
slot_step-IsSound s (quarantining session token) h = ground arith
slot_step-IsSound s (releasing session) h = ground arith

pub step-IsValid : (t : LeaseTable) (r : ResourceId) (op : Op) → IsValid t → IsValid (step t r op)
step-IsValid t r op h j = rw (step_refines t r j op) (elim (Bool-cases (r == j)) [
  | inl e ↦ rw e (slot_step-IsSound (slot t r) op (h r))
  | inr e ↦ rw e (h j)
])

-- The calls of a history, oldest first, each on a resource.
unfoldable pub run : LeaseTable → List (ResourceId × Op) → LeaseTable
run t [] = t
run t ((r, op) ∷ rest) = run (step t r op) rest

run-IsValid : (t : LeaseTable) (ops : List (ResourceId × Op)) → IsValid t → IsValid (run t ops)
unfolding run
run-IsValid t [] h = h
run-IsValid t ((r, op) ∷ rest) h = run-IsValid (step t r op) rest (step-IsValid t r op h)

pub empty-IsValid : IsValid empty
unfolding current_generation get
empty-IsValid r = record { in_range = omega arith; fits = tt }

-- After any history from the empty table, on every resource: the generation fits a `u64`, and an
-- active lease has the control mode and exactly the current generation, which is at least 1.
pub run_empty-IsValid : (ops : List (ResourceId × Op)) → IsValid (run empty ops)
run_empty-IsValid ops = run-IsValid empty ops empty-IsValid
