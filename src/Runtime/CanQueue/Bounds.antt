-- ===== src/Runtime/CanQueue/Bounds.antt =====
-- Calls of `try_send_batch` and the actor that takes their batches, in any order
-- (crates/robot-hal-runtime/src/can_actor.rs).
use robot_hal.Prelude.{ℕ, ◌+◌, ◌≤◌, ◌<◌, ◌^◌, ◌≡◌, ◌↔◌, refl, ap, List, [], ◌∷◌, ◌++◌, arith}
use robot_hal.Core.Error.{ok}
use robot_hal.Runtime.CanQueue.{
  TxQueue, enqueue, fetch_sub, finish_batch, give_back, new_queue, reserve,
}

pub data Step (tx_capacity : ℕ) : TxQueue → TxQueue → Type 0 where
  reserves : (q : TxQueue) (frames : ℕ) → Step tx_capacity q (reserve tx_capacity frames q).0
  enqueues :
      (q : TxQueue) (before : List ℕ) (frames : ℕ) (after : List ℕ)
      → q.reserving ≡ before ++ (frames ∷ after)
      → Step tx_capacity q (enqueue before frames after q)
  gives_back :
      (q : TxQueue) (before : List ℕ) (frames : ℕ) (after : List ℕ)
      → q.reserving ≡ before ++ (frames ∷ after)
      → Step tx_capacity q (give_back before frames after q)
  finishes :
      (q : TxQueue) (frames : ℕ) (rest : List ℕ)
      → q.queued ≡ frames ∷ rest
      → Step tx_capacity q (finish_batch frames rest q)

pub data Reach (tx_capacity : ℕ) : TxQueue → Type 0 where
  here : Reach tx_capacity new_queue
  next : {q q' : TxQueue} → Reach tx_capacity q → Step tx_capacity q q' → Reach tx_capacity q'

abbrev pub total : List ℕ → ℕ
total [] = 0
total (n ∷ ns) = n + total ns

total-append : (xs ys : List ℕ) → total (xs ++ ys) ≡ total xs + total ys
total-append [] ys = omega arith
total-append (x ∷ xs) ys = omega (arith, total-append xs ys)

abbrev IsExact : ℕ → TxQueue → Type 0
IsExact tx_capacity q =
    (q.tx_reserved ≡ total q.reserving + total q.queued) × (q.tx_reserved ≤ tx_capacity)

fetch_sub-exact : (value n : ℕ) → n ≤ value → value < 2 ^ 64 → fetch_sub value n + n ≡ value
fetch_sub-exact value n below fits = omega (arith, below, fits)

Step-IsExact :
    {tx_capacity : ℕ} {q q' : TxQueue}
    → tx_capacity < 2 ^ 64
    → Step tx_capacity q q'
    → IsExact tx_capacity q
    → IsExact tx_capacity q'
unfolding reserve enqueue give_back finish_batch
Step-IsExact wide (reserves q frames) h = ground (arith, h)
Step-IsExact wide (enqueues q before frames after e) (exact, fits) = (
  omega (
    arith,
    exact,
    ap total e,
    total-append before (frames ∷ after),
    total-append before after,
    total-append q.queued (frames ∷ []),
  ),
  fits,
)
Step-IsExact wide (gives_back q before frames after e) (exact, fits) =
    let split = total-append before (frames ∷ after) in
    let less =
      fetch_sub-exact q.tx_reserved frames (omega (arith, exact, ap total e, split))
        (omega (arith, fits, wide)) in
    (
      omega (arith, exact, ap total e, split, total-append before after, less),
      omega (arith, fits, less),
    )
Step-IsExact wide (finishes q frames rest e) (exact, fits) =
    let less =
      fetch_sub-exact q.tx_reserved frames (omega (arith, exact, ap total e))
        (omega (arith, fits, wide)) in
    (omega (arith, exact, ap total e, less), omega (arith, fits, less))

Reach-IsExact :
    {tx_capacity : ℕ} {q : TxQueue}
    → tx_capacity < 2 ^ 64
    → Reach tx_capacity q
    → IsExact tx_capacity q
Reach-IsExact wide here = (refl, omega arith)
Reach-IsExact wide (next r s) = Step-IsExact wide s (Reach-IsExact wide r)

-- After any interleaving of callers and the actor, with a capacity below 2^64: the counter is exactly
-- the number of frames of the batches that have reserved or are queued, it never passes the
-- capacity, and a batch can reserve exactly when its frames fit beside those.
pub reserved_exactly :
    {tx_capacity : ℕ} {q : TxQueue} (frames : ℕ)
    → tx_capacity < 2 ^ 64
    → Reach tx_capacity q
    → (q.tx_reserved ≡ total q.reserving + total q.queued)
      × (q.tx_reserved ≤ tx_capacity)
      × (((reserve tx_capacity frames q).1 ≡ ok tt)
          ↔ (total q.reserving + total q.queued + frames ≤ tx_capacity))
unfolding reserve
reserved_exactly frames wide r =
    let (exact, fits) = Reach-IsExact wide r in
    (exact, fits, (λ h. ground (arith, h, exact), λ room. ground (arith, room, exact, wide)))
