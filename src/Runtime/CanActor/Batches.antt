-- ===== src/Runtime/CanActor/Batches.antt =====
-- `CanCommand::SendBatch` of crates/robot-hal-runtime/src/can_actor.rs.
use robot_hal.Prelude.{
  ℕ, zero, suc, ◌+◌, ◌≤◌, ◌<◌, ◌≡◌, inl, inr, refl, Option, none, some, List, [], ◌∷◌, length, take,
  arith,
}
use robot_hal.Core.Error.{result-cases, HalError, HalResult, ok, err, ◌>>=◌, with_context}
use robot_hal.Can.Frame.{CanBatchSendError, CanFrame}
use robot_hal.Core.Context.{prepend}
use robot_hal.Protocol.Wire.{Within}
use robot_hal.Protocol.Errors.{IsError, error_returns}
use robot_hal.Protocol.CanRequests.{can_send_response_from_proto, can_send_response_to_proto}
use robot_hal.Runtime.CanActor.{send_batch, send_from}

-- A channel after some sends.
abbrev after {ℓ} :
    {Channel : Type ℓ}
    → (Channel → CanFrame → Channel × HalResult (Unit {0}))
    → Channel
    → List CanFrame
    → Channel
after send channel [] = channel
after send channel (frame ∷ frames) = after send (send channel frame).0 frames

-- A result as the client reads it: the entries of a context stand in the other order.
abbrev pub as_read : Option CanBatchSendError → Option CanBatchSendError
as_read none = none
as_read (some failure) = some (record {
  error =
      with_context failure.error (record { entries = prepend failure.error.context.entries [] });
  committed = failure.committed;
})

-- Every send succeeds.
abbrev AllSent {ℓ} :
    {Channel : Type ℓ}
    → (Channel → CanFrame → Channel × HalResult (Unit {0}))
    → Channel
    → List CanFrame
    → Type 0
AllSent send channel [] = Unit {0}
AllSent send channel (frame ∷ frames) =
    ((send channel frame).1 ≡ ok tt) × AllSent send (send channel frame).0 frames

-- The first `k` sends succeed, and the next one is refused.
abbrev RefusedAt {ℓ} :
    {Channel : Type ℓ}
    → (Channel → CanFrame → Channel × HalResult (Unit {0}))
    → Channel
    → ℕ
    → List CanFrame
    → HalError
    → Type 0
RefusedAt send channel k [] e = ⊥
RefusedAt send channel zero (frame ∷ frames) e = (send channel frame).1 ≡ err e
RefusedAt send channel (suc k) (frame ∷ frames) e =
    ((send channel frame).1 ≡ ok tt) × RefusedAt send (send channel frame).0 k frames e

-- What a batch that began after some committed frames comes to.
abbrev pub Outcome {ℓ} :
    {Channel : Type ℓ}
    → (Channel → CanFrame → Channel × HalResult (Unit {0}))
    → Channel
    → ℕ
    → List CanFrame
    → Channel × Option CanBatchSendError
    → Type ℓ
Outcome send channel before frames (channel', none) =
    AllSent send channel frames × (channel' ≡ after send channel frames)
Outcome send channel before frames (channel', some failure) =
    (k : ℕ) × (failure.committed ≡ before + k)
    × (k < length frames)
    × RefusedAt send channel k frames failure.error
    × (channel' ≡ after send channel (take (suc k) frames))

-- The two halves of the answer, for any result that a batch may have.
read_back :
    (o : Option CanBatchSendError) (count : ℕ)
    → Within (λ (x : CanBatchSendError). IsError x.error × (x.committed < count)) o
    → 1 ≤ count
    → count ≤ 64
    → (can_send_response_to_proto o count >>= λ m. can_send_response_from_proto m count)
      ≡ ok (as_read o)
unfolding can_send_response_to_proto can_send_response_from_proto
read_back none count h some_in few = ground arith
read_back (some failure) count (legal, prefix) some_in few =
    ground (arith, error_returns failure.error legal)

module _ {ℓ} {Channel : Type ℓ} (send : Channel → CanFrame → Channel × HalResult (Unit {0})) where
  later-Outcome :
      (channel : Channel) (before : ℕ) (frame : CanFrame) (frames : List CanFrame)
      (x : Channel × Option CanBatchSendError)
      → (send channel frame).1 ≡ ok tt
      → Outcome send (send channel frame).0 (before + 1) frames x
      → Outcome send channel before (frame ∷ frames) x
  later-Outcome channel before frame frames (c, none) sent (all, h) = ((sent, all), h)
  later-Outcome channel before frame frames (c, some failure) sent (k, e, short, refused, h) =
      (suc k, omega (arith, e), omega (arith, short), (sent, refused), h)

  send_from-Outcome :
      (channel : Channel) (before : ℕ) (frames : List CanFrame)
      → Outcome send channel before frames (send_from send channel before frames)
  unfolding send_from
  send_from-Outcome channel before [] = (tt, refl)
  send_from-Outcome channel before (frame ∷ frames) = elim (result-cases (send channel frame).1) [
    | inl e ↦
        rw (e, send_from)
          (later-Outcome channel before frame frames
            (send_from send (send channel frame).0 (before + 1) frames) e
            (send_from-Outcome (send channel frame).0 (before + 1) frames))
    | inr (x, e) ↦ rw (e, send_from) (0, omega arith, omega arith, e, refl)
  ]

  -- A batch is sent in order, up to the first frame that the channel refuses: without an error every
  -- send succeeded and the channel was given every frame; with an error after some committed frames,
  -- these are fewer than the frames of the batch, their sends succeeded, the send of the next frame
  -- was refused with just that error, and the channel was given no frame after it.
  pub send_batch-Outcome :
      (channel : Channel) (frames : List CanFrame)
      → Outcome send channel 0 frames (send_batch send channel frames)
  unfolding send_batch
  send_batch-Outcome channel frames = send_from-Outcome channel 0 frames

  send_from-IsError :
      (channel : Channel) (before : ℕ) (frames : List CanFrame)
      → ((c : Channel) (f : CanFrame) (e : HalError) → (send c f).1 ≡ err e → IsError e)
      → Within (λ (x : CanBatchSendError). IsError x.error) (send_from send channel before frames).1
  unfolding send_from
  send_from-IsError channel before [] legal = tt
  send_from-IsError channel before (frame ∷ frames) legal =
      elim (result-cases (send channel frame).1) [
        | inl e ↦
            rw (e, send_from) (send_from-IsError (send channel frame).0 (before + 1) frames legal)
        | inr (x, e) ↦ rw (e, send_from) (legal channel frame x e)
      ]

  both :
      (channel : Channel) (frames : List CanFrame) (x : Channel × Option CanBatchSendError)
      → Outcome send channel 0 frames x
      → Within (λ (x : CanBatchSendError). IsError x.error) x.1
      → Within (λ (x : CanBatchSendError). IsError x.error × (x.committed < length frames)) x.1
  both channel frames (c, none) out legal = tt
  both channel frames (c, some failure) (k, e, short, refused, h) legal =
      (legal, omega (arith, e, short))

  -- The answer to a batch of 1 to 64 frames arrives at the client: what the actor made of the batch is
  -- what the client reads from the answer of the broker, the context of an error with the same
  -- entries, when the errors of the channel have the parts that every error has.
  pub batch_answer_arrives :
      (channel : Channel) (frames : List CanFrame)
      → 1 ≤ length frames
      → length frames ≤ 64
      → ((c : Channel) (f : CanFrame) (e : HalError) → (send c f).1 ≡ err e → IsError e)
      → (can_send_response_to_proto (send_batch send channel frames).1 (length frames) >>= λ m.
          can_send_response_from_proto m (length frames))
        ≡ ok (as_read (send_batch send channel frames).1)
  unfolding send_batch
  batch_answer_arrives channel frames some_in few legal =
      read_back (send_from send channel 0 frames).1 (length frames)
        (both channel frames (send_from send channel 0 frames) (send_from-Outcome channel 0 frames)
          (send_from-IsError channel 0 frames legal))
        some_in few
