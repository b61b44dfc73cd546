-- ===== src/Runtime/CanQueue.antt =====
-- `CanActorHandle::try_send_batch` of crates/robot-hal-runtime/src/can_actor.rs: batches reserve room
-- for their frames before they are queued for the actor. Callers and the actor run at the same time;
-- what is atomic is a function. A `usize` has 64 bits.
mod Bounds
mod Tests
use robot_hal.Prelude.{
  ℕ, ◌+◌, ◌-◌, ◌%◌, ◌^◌, String, true, List, [], ◌∷◌, ◌++◌, not, ltb, leb, decimal, concat,
  if◌then◌else◌,
}
use robot_hal.Core.Names.{unavailable}
use robot_hal.Core.Error.{HalError, HalResult, ok, err}
use robot_hal.Core.Lease.{u64_max}
use robot_hal.Runtime.Errors.{runtime_error}

-- The counter that the handles share, the sizes of the batches of calls that have reserved and not yet
-- queued, and those of the batches in the queue.
pub record TxQueue : Type 0 where
  pub tx_reserved : ℕ
  pub reserving : List ℕ
  pub queued : List ℕ

abbrev pub new_queue : TxQueue
new_queue = record { tx_reserved = 0; reserving = []; queued = [] }

abbrev queue_full : String → ℕ → HalError
queue_full operation capacity =
    runtime_error "runtime.queue.full" unavailable operation true
      (concat "the bounded CAN queue has reached its " (concat (decimal capacity) "-item capacity"))

-- The loop of `try_send_batch` with the exchange that succeeds.
unfoldable pub reserve : ℕ → ℕ → TxQueue → TxQueue × HalResult (Unit {0})
reserve tx_capacity frames q =
    if not (leb (q.tx_reserved + frames) u64_max)
    then (q, err (queue_full "can.send_batch" tx_capacity))
    else if ltb tx_capacity (q.tx_reserved + frames)
    then (q, err (queue_full "can.send_batch" tx_capacity))
    else (
      record q { tx_reserved = q.tx_reserved + frames; reserving = frames ∷ q.reserving },
      ok tt,
    )

-- `fetch_sub` wraps.
abbrev pub fetch_sub : ℕ → ℕ → ℕ
fetch_sub value n = (value + (2 ^ 64 - n)) % 2 ^ 64

-- `try_send` of a batch that has reserved, between others that have: the queue takes it,
unfoldable pub enqueue : List ℕ → ℕ → List ℕ → TxQueue → TxQueue
enqueue before frames after q = record q {
  reserving = before ++ after;
  queued = q.queued ++ (frames ∷ []);
}

-- or is full or closed, and the reservation is given back.
unfoldable pub give_back : List ℕ → ℕ → List ℕ → TxQueue → TxQueue
give_back before frames after q = record q {
  tx_reserved = fetch_sub q.tx_reserved frames;
  reserving = before ++ after;
}

-- The actor takes the first batch, and sends or rejects it.
unfoldable pub finish_batch : ℕ → List ℕ → TxQueue → TxQueue
finish_batch frames rest q = record q {
  tx_reserved = fetch_sub q.tx_reserved frames;
  queued = rest;
}
