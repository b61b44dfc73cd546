-- ===== src/Runtime/CanActor/Answers.antt =====
-- What an answer to a receive takes from the ring of a session
-- (crates/robot-hal-runtime/src/can_actor.rs).
use robot_hal.Prelude.{
  ℕ, ◌≡◌, sym, ap, ◌∙◌, Bool, Option, none, some, List, [], ◌∷◌, ◌++◌, Bool-cases, ==_refl, decimal,
  ltb, get, true, false, refl, length, take-drop, append_assoc, length-append, arith, string_eq,
  Option-cases, inl, inr, ◌+◌,
}
use robot_hal.Core.Names.{ResourceId}
use robot_hal.Core.Error.{HalResult}
use robot_hal.Can.Frame.{ReceivedCanFrame}
use robot_hal.Runtime.CanActor.{
  ActorSession, PendingReceive, receive_command, service, settle, take_receive_result,
}
use robot_hal.Runtime.CanActor.Turns.{told_by, IsBalanced, Trace, answer, frames_of}

-- What an answer does to the ring.
abbrev Took : ActorSession → ActorSession × Option (HalResult (List ReceivedCanFrame)) → Type 0
Took s (s', result) =
    (s'.dropped + told_by s result ≡ s.dropped) × (s.received ≡ frames_of result ++ s'.received)

take_receive_result-Took :
    (s : ActorSession) (n : ℕ) (r : ResourceId) → Took s (take_receive_result s n r)
unfolding take_receive_result get
take_receive_result-Took s n r = elim (Bool-cases (ltb 0 s.dropped)) [
  | inl lag ↦ ground (arith, lag, ==_refl (decimal s.dropped))
  | inr whole ↦ ground (arith, whole, take-drop n s.received)
]

settle-Took :
    (s : ActorSession) (now : ℕ) (p : PendingReceive)
    (x : ActorSession × Option (HalResult (List ReceivedCanFrame)))
    → Took s x
    → Took s (settle now p x)
settle-Took s now p (s', some result) h = h
settle-Took s now p (s', none) h = ground (arith, h)

pub receive_command-Took :
    (s : ActorSession) (now : ℕ) (p : PendingReceive) (r : ResourceId)
    → Took s (receive_command now p r s)
unfolding receive_command
receive_command-Took s now p r = ground (
  arith,
  settle-Took s now p (take_receive_result s p.max_frames r)
      (take_receive_result-Took s p.max_frames r),
)

pub service-Took :
    (s : ActorSession) (now : ℕ) (closed : Bool) (r : ResourceId) → Took s (service now closed r s)
unfolding service
service-Took s now closed r = elim (Option-cases s.pending_receive) [
  | inl e ↦ ground (arith, e)
  | inr (p, e) ↦
      let s' : ActorSession = record s { pending_receive = none } in
      let taken = take_receive_result s' p.max_frames r in
      ground (arith, e, settle-Took s' now p taken (take_receive_result-Took s' p.max_frames r))
]

length_zero {ℓ} : {A : Type ℓ} (xs : List A) → length xs ≡ 0 → xs ≡ []
length_zero [] h = refl
length_zero (x ∷ xs) h = absurd (omega (arith, h))

pub answer-IsBalanced :
    (cap : ℕ) (t : Trace) (gone : Bool)
    (x : ActorSession × Option (HalResult (List ReceivedCanFrame)))
    → Took t.session x
    → IsBalanced cap t
    → IsBalanced cap (answer t gone x)
answer-IsBalanced cap t true (s, result) (less, split) b =
    let count = length-append (frames_of result) s.received in
    let apart = ap length split in
    record {
      bounded = omega (arith, b.bounded, count, apart);
      counted = λ fits. omega (arith, b.counted fits, count, apart, less);
      ordered = λ whole.
          b.ordered (omega (arith, whole, less))
          ∙ ap (λ x. t.delivered ++ x)
              (split
                ∙ ap (λ x. x ++ s.received)
                    (length_zero (frames_of result) (omega (arith, whole))));
    }
answer-IsBalanced cap t false (s, result) (less, split) b =
    let count = length-append (frames_of result) s.received in
    let apart = ap length split in
    record {
      bounded = omega (arith, b.bounded, count, apart);
      counted = λ fits.
          omega (
            arith,
            b.counted fits,
            count,
            apart,
            less,
            length-append t.delivered (frames_of result),
          );
      ordered = λ whole.
          b.ordered (omega (arith, whole, less))
          ∙ ap (λ x. t.delivered ++ x) split
          ∙ sym (append_assoc t.delivered (frames_of result) s.received);
    }
