-- ===== src/Runtime/Registry/History.antt =====
-- Histories of calls on the registry, and what they guarantee.
use robot_hal.Prelude.{
  ◌≡◌, ◌↔◌, sym, String, inl, inr, true, false, none, some, List, [], ◌∷◌, arith, Option-cases, get,
  ◌∙◌,
}
use robot_hal.Core.Names.{
  ResourceId, SessionId, OwnerId, LeaseId, resource_id_eq, session_id_eq, owner_id_eq,
}
use robot_hal.Core.Lease.{LeaseToken, lease_token_eq}
use robot_hal.Core.Error.{HalResult, ok, is_ok}
use robot_hal.Runtime.LeaseTable.{validate}
use robot_hal.Runtime.LeaseTable.Invariant.{empty-IsValid}
use robot_hal.Runtime.LeaseTable.Outcomes.{validate_iff}
use robot_hal.Runtime.Lifecycle.{active, admit_io}
use robot_hal.Runtime.Events.{EventPublisher, new_publisher}
use robot_hal.Runtime.Registry.{
  new_registry, reserve_open, finish_open, cancel_open, close_session, begin_revoke, finish_close,
  enqueue,
}
use robot_hal.Runtime.Sessions.{Registry, SessionEntry, SerialCommand, SendOutcome, queued}
use robot_hal.Runtime.Registry.Backing.{IsConsistent}
use robot_hal.Runtime.Registry.Consistency.{
  backing, reserve_open-IsConsistent, finish_open-IsConsistent, cancel_open-IsConsistent,
  close_session-IsConsistent, begin_revoke-IsConsistent, finish_close-IsConsistent,
}
use mathlib.Core.Bool.{false≢true}

pub data Op (Actor : Type 0) : Type 0 where
  reserving : ResourceId → SessionId → OwnerId → LeaseId → Op Actor
  opening : SessionId → Actor → Op Actor
  cancelling : SessionId → Op Actor
  closing : SessionId → LeaseToken → Op Actor
  revoking : OwnerId → Op Actor
  finishing : SessionId → HalResult (Unit {0}) → Op Actor

pub record World (Actor : Type 0) : Type 0 where
  pub registry : Registry Actor
  pub events : EventPublisher

module _ {Actor : Type 0} where
  abbrev pub with_events : Registry Actor → EventPublisher → World Actor
  with_events reg events = record { registry = reg; events = events }

  unfoldable pub step : World Actor → Op Actor → World Actor
  step w (reserving r session owner fresh) = record w {
    registry = (reserve_open w.registry r session owner fresh).0;
  }
  step w (opening session actor) =
      let (reg, events, done) = finish_open w.registry session actor w.events in
      with_events reg events
  step w (cancelling session) = record w { registry = (cancel_open w.registry session).0 }
  step w (closing session lease) = record w {
    registry = (close_session w.registry session lease).0;
  }
  step w (revoking owner) = record w { registry = (begin_revoke w.registry owner).0 }
  step w (finishing session result) =
      let (reg, events, done) = finish_close w.registry session w.events result in
      with_events reg events

  unfoldable pub run : World Actor → List (Op Actor) → World Actor
  run w [] = w
  run w (op ∷ ops) = run (step w op) ops

  step-IsConsistent :
      (w : World Actor) (op : Op Actor)
      → IsConsistent w.registry
      → IsConsistent (step w op).registry
  unfolding step
  step-IsConsistent w (reserving r session owner fresh) h =
      reserve_open-IsConsistent w.registry session h r owner fresh
  step-IsConsistent w (opening session actor) h =
      finish_open-IsConsistent w.registry session h actor w.events
  step-IsConsistent w (cancelling session) h = cancel_open-IsConsistent w.registry session h
  step-IsConsistent w (closing session lease) h =
      close_session-IsConsistent w.registry session h lease
  step-IsConsistent w (revoking owner) h = begin_revoke-IsConsistent w.registry owner h
  step-IsConsistent w (finishing session result) h =
      finish_close-IsConsistent w.registry session h w.events result

  run-IsConsistent :
      (w : World Actor) (ops : List (Op Actor))
      → IsConsistent w.registry
      → IsConsistent (run w ops).registry
  unfolding run
  run-IsConsistent w [] h = h
  run-IsConsistent w (op ∷ ops) h = run-IsConsistent (step w op) ops (step-IsConsistent w op h)

abbrev pub start : (Actor : Type 0) → World Actor
start Actor = record { registry = new_registry Actor; events = new_publisher }

new-IsConsistent : (Actor : Type 0) → IsConsistent (new_registry Actor)
unfolding get
new-IsConsistent Actor = record {
  leases_valid = empty-IsValid;
  backed = λ session entry e. absurd (cc);
}

-- After any history of calls, every session of the registry, in whatever phase, holds the active
-- lease of its resource under its own identifier, owner and token; an active session has committed
-- that lease and has an actor. The lease table is valid.
pub run-start-IsConsistent :
    {Actor : Type 0} (ops : List (Op Actor)) → IsConsistent (run (start Actor) ops).registry
run-start-IsConsistent {Actor} ops = run-IsConsistent (start Actor) ops (new-IsConsistent Actor)

-- After any history of calls no two sessions share a resource.
pub one_session_per_resource :
    {Actor : Type 0} (ops : List (Op Actor)) (session other : SessionId)
    (entry entry' : SessionEntry Actor)
    → let m = (run (start Actor) ops).registry.sessions in
      get session m ≡ some entry
      → get other m ≡ some entry'
      → entry.resource_id ≡ entry'.resource_id
      → session ≡ other
one_session_per_resource {Actor} ops session other entry entry' e f same =
    let h = run-start-IsConsistent ops in
    let (lease, g, b) = backing (run (start Actor) ops).registry session h entry e in
    let (lease', g', b') = backing (run (start Actor) ops).registry other h entry' f in
    ground (arith, b, b')

module _ {Actor : Type 0} (reg : Registry Actor) (session : SessionId) (entry : SessionEntry Actor)
    (lease : LeaseToken) (operation : String) where
  -- The lease table accepts exactly the session's own token.
  validate_backed :
      IsConsistent reg
      → get session reg.sessions ≡ some entry
      → (validate reg.leases entry.resource_id session entry.owner_id lease operation ≡ ok tt)
        ↔ (entry.lease ≡ lease)
  validate_backed h e =
      let (held, g, b) = backing reg session h entry e in
      let accepts =
        validate_iff reg.leases entry.resource_id session entry.owner_id lease operation
          h.leases_valid in
      (
        λ v. let (c, k) = accepts.0 v in ground (arith, b),
        λ k. accepts.1 (held.committed, ground (arith, b)),
      )

  enqueue-entry :
      (try_send : Actor → SerialCommand → SendOutcome) (command : SerialCommand) (actor : Actor)
      → IsConsistent reg
      → get session reg.sessions ≡ some entry
      → entry.actor ≡ some actor
      → (is_ok (enqueue try_send reg session lease command operation) ≡ true)
        ↔ ((entry.lease ≡ lease) × (entry.state ≡ active) × (try_send actor command ≡ queued))
  unfolding enqueue admit_io
  enqueue-entry try_send command actor h e a = ground (arith, validate_backed h e)

  enqueue_without_actor :
      (try_send : Actor → SerialCommand → SendOutcome) (command : SerialCommand)
      → get session reg.sessions ≡ some entry
      → entry.actor ≡ none
      → is_ok (enqueue try_send reg session lease command operation) ≡ false
  unfolding enqueue admit_io
  enqueue_without_actor try_send command e a = ground arith

enqueue_unknown :
    {Actor : Type 0} (reg : Registry Actor) (session : SessionId) (lease : LeaseToken)
    (operation : String) (try_send : Actor → SerialCommand → SendOutcome) (command : SerialCommand)
    → get session reg.sessions ≡ none
    → is_ok (enqueue try_send reg session lease command operation) ≡ false
unfolding enqueue
enqueue_unknown reg session lease operation try_send command e = ground arith

-- After any history of calls `enqueue` admits a command exactly when the session is known and
-- active, the caller shows the session's own lease, and the queue of its actor takes the command.
pub enqueue_iff :
    {Actor : Type 0} (try_send : Actor → SerialCommand → SendOutcome) (ops : List (Op Actor))
    (session : SessionId) (lease : LeaseToken) (command : SerialCommand) (operation : String)
    → let reg = (run (start Actor) ops).registry in
      (is_ok (enqueue try_send reg session lease command operation) ≡ true) ↔ (
        (entry : SessionEntry Actor) × (actor : Actor) × (get session reg.sessions ≡ some entry)
        × (entry.lease ≡ lease)
        × (entry.state ≡ active)
        × (entry.actor ≡ some actor)
        × (try_send actor command ≡ queued))
enqueue_iff {Actor} try_send ops session lease command operation =
    let reg = (run (start Actor) ops).registry in
    let h = run-start-IsConsistent ops in
    (
      λ admitted. elim (Option-cases (get session reg.sessions)) [
        | inl e ↦ absurd (
            false≢true
              (sym (enqueue_unknown reg session lease operation try_send command e) ∙ admitted))
        | inr (entry, e) ↦ elim (Option-cases entry.actor) [
          | inl a ↦ absurd (
              false≢true (
                sym (enqueue_without_actor reg session entry lease operation try_send command e a)
                ∙ admitted))
          | inr (actor, a) ↦
              let (k, s, q) =
                (enqueue-entry reg session entry lease operation try_send command actor h e a).0
                  admitted in
              (entry, actor, e, k, s, a, q)
        ]
      ],
      λ (entry, actor, e, k, s, a, q).
          (enqueue-entry reg session entry lease operation try_send command actor h e a).1
            (k, s, q),
    )
