-- ===== src/Runtime/CanQueue/Tests.antt =====
-- Three batches ask for room in a queue for four frames.
use robot_hal.Prelude.{◌+◌, ◌≤◌, ◌≡◌, ◌↔◌, refl, [], ◌∷◌, arith}
use robot_hal.Core.Error.{ok}
use robot_hal.Runtime.CanQueue.{TxQueue, enqueue, finish_batch, new_queue, reserve}
use robot_hal.Runtime.CanQueue.Bounds.{
  Reach, enqueues, finishes, here, next, reserved_exactly, reserves, total,
}

abbrev two : TxQueue
two = record { tx_reserved = 4; reserving = 1 ∷ 3 ∷ []; queued = [] }

two_reserved : (reserve 4 1 (reserve 4 3 new_queue).0).0 ≡ two
unfolding reserve
two_reserved = refl

Reach-one_done :
    Reach 4 (finish_batch 3 [] (enqueue (1 ∷ []) 3 [] (reserve 4 1 (reserve 4 3 new_queue).0).0))
unfolding enqueue reserve
Reach-one_done =
    next
      (next (next (next here (reserves new_queue 3)) (reserves (reserve 4 3 new_queue).0 1))
        (enqueues (reserve 4 1 (reserve 4 3 new_queue).0).0 (1 ∷ []) 3 [] refl))
      (finishes (enqueue (1 ∷ []) 3 [] (reserve 4 1 (reserve 4 3 new_queue).0).0) 3 [] refl)

abbrev one_done : TxQueue
one_done = finish_batch 3 [] (enqueue (1 ∷ []) 3 [] (reserve 4 1 (reserve 4 3 new_queue).0).0)

reserved_exactly_example :
    (one_done.tx_reserved ≡ total one_done.reserving + total one_done.queued)
    × (one_done.tx_reserved ≤ 4)
    × (((reserve 4 3 one_done).1 ≡ ok tt)
        ↔ (total one_done.reserving + total one_done.queued + 3 ≤ 4))
reserved_exactly_example = reserved_exactly 3 (omega arith) Reach-one_done
