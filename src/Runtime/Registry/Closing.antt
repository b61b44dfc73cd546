-- ===== src/Runtime/Registry/Closing.antt =====
-- Closed sessions after any history, and the calls on a session that has been closed.
use robot_hal.Prelude.{
  ◌≡◌, refl, String, true, none, some, List, [], ◌∷◌, arith, get, ==_refl, get-insert, get-remove,
  subst, sym,
}
use robot_hal.Core.Names.{SessionId, session_id_eq, resource_id_eq, LeaseId, OwnerId, ResourceId}
use robot_hal.Core.Lease.{LeaseToken, lease_token_eq}
use robot_hal.Core.Error.{HalResult, ok, error_name}
use robot_hal.Runtime.LeaseTable.{release}
use robot_hal.Runtime.Events.{EventPublisher}
use robot_hal.Runtime.Registry.{
  make_room, remember_closed, reserve_open, finish_open, cancel_open, begin_revoke, finish_close,
  close_session, enqueue,
}
use robot_hal.Runtime.Sessions.{
  Registry, SessionEntry, SerialCommand, SendOutcome, already_closed, validate_closed_lease,
}
use robot_hal.Runtime.Registry.Closed.{RemembersClosed, Remembers, finish_close_memory}
use robot_hal.Runtime.Registry.History.{
  Op, World, reserving, opening, cancelling, closing, revoking, finishing, step, run, start,
}

module _ {Actor : Type 0} where
  abbrev Keeps : Registry Actor → Registry Actor → Type 0
  Keeps reg reg' =
      (reg'.closed_order ≡ reg.closed_order) × (reg'.closed_sessions ≡ reg.closed_sessions)

  kept : (reg reg' : Registry Actor) → Keeps reg reg' → RemembersClosed reg → RemembersClosed reg'
  kept reg reg' k h =
      subst (λ order. Remembers order reg'.closed_sessions) (sym k.0)
        (subst (Remembers reg.closed_order) (sym k.1) h)

  module _ (reg : Registry Actor) (session : SessionId) where
    reserve_open-Keeps :
        (r : ResourceId) (owner : OwnerId) (fresh : LeaseId)
        → Keeps reg (reserve_open reg r session owner fresh).0
    unfolding reserve_open
    reserve_open-Keeps r owner fresh = ground arith

    finish_open-Keeps :
        (actor : Actor) (events : EventPublisher)
        → Keeps reg (finish_open reg session actor events).0
    unfolding finish_open
    finish_open-Keeps actor events = ground arith

    cancel_open-Keeps : Keeps reg (cancel_open reg session).0
    unfolding cancel_open
    cancel_open-Keeps = ground arith

    close_session-Keeps : (lease : LeaseToken) → Keeps reg (close_session reg session lease).0
    unfolding close_session
    close_session-Keeps lease = ground arith

  step_memory :
      (w : World Actor) (op : Op Actor)
      → RemembersClosed w.registry
      → RemembersClosed (step w op).registry
  unfolding step begin_revoke
  step_memory w (reserving r session owner fresh) h =
      kept w.registry (reserve_open w.registry r session owner fresh).0
        (reserve_open-Keeps w.registry session r owner fresh) h
  step_memory w (opening session actor) h =
      kept w.registry (finish_open w.registry session actor w.events).0
        (finish_open-Keeps w.registry session actor w.events) h
  step_memory w (cancelling session) h =
      kept w.registry (cancel_open w.registry session).0 (cancel_open-Keeps w.registry session) h
  step_memory w (closing session lease) h =
      kept w.registry (close_session w.registry session lease).0
        (close_session-Keeps w.registry session lease) h
  step_memory w (revoking owner) h = h
  step_memory w (finishing session result) h =
      finish_close_memory w.registry session w.events result h

  run_memory :
      (w : World Actor) (ops : List (Op Actor))
      → RemembersClosed w.registry
      → RemembersClosed (run w ops).registry
  unfolding run
  run_memory w [] h = h
  run_memory w (op ∷ ops) h = run_memory (step w op) ops (step_memory w op h)

-- After any history of calls the registry remembers at most 256 closed sessions: their order names
-- each once, and the map of closed leases has exactly the sessions of the order.
pub closed_memory :
    {Actor : Type 0} (ops : List (Op Actor)) → RemembersClosed (run (start Actor) ops).registry
unfolding get
closed_memory {Actor} ops =
    run_memory (start Actor) ops
      (record { bounded = omega arith; distinct = tt; same_keys = λ session. refl })

just_closed :
    {Actor : Type 0} (reg : Registry Actor) (session : SessionId) (entry : SessionEntry Actor)
    (events : EventPublisher) (result : HalResult (Unit {0}))
    → get session reg.sessions ≡ some entry
    → (release reg.leases entry.resource_id session).1 ≡ true
    → get session reg.closed_sessions ≡ none
    → let reg' = (finish_close reg session events result).0 in
      (get session reg'.sessions ≡ none) × (get session reg'.closed_sessions ≡ some entry.lease)
unfolding finish_close remember_closed
just_closed reg session entry events result e exposed new = ground (
  arith,
  ==_refl session,
  get-remove session session reg.sessions,
  get-insert session session entry.lease (make_room reg.closed_order reg.closed_sessions).1,
)

own_lease_closed :
    (lease : LeaseToken) (operation : String) → validate_closed_lease lease lease operation ≡ ok tt
unfolding validate_closed_lease
own_lease_closed lease operation = ground (arith, ==_refl lease)

-- Closing again a session that `finish_close` has just closed, with the session's own lease, is
-- answered as already closed and changes nothing; a command for it is refused as a closed session.
-- The session's lease must have been committed, and its identifier not be that of an earlier one.
pub close_again :
    {Actor : Type 0} (reg : Registry Actor) (session : SessionId) (entry : SessionEntry Actor)
    (events : EventPublisher) (result : HalResult (Unit {0}))
    (try_send : Actor → SerialCommand → SendOutcome) (command : SerialCommand) (operation : String)
    → get session reg.sessions ≡ some entry
    → (release reg.leases entry.resource_id session).1 ≡ true
    → get session reg.closed_sessions ≡ none
    → let reg' = (finish_close reg session events result).0 in
      (close_session reg' session entry.lease ≡ (reg', ok already_closed))
      × (error_name (enqueue try_send reg' session entry.lease command operation)
          ≡ some "runtime.session.closed")
unfolding close_session enqueue
close_again reg session entry events result try_send command operation e exposed new = ground (
  arith,
  just_closed reg session entry events result e exposed new,
  own_lease_closed entry.lease "serial.close",
  own_lease_closed entry.lease operation,
)
