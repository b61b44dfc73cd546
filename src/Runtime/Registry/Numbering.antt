-- ===== src/Runtime/Registry/Numbering.antt =====
-- The numbers of the events that the registry publishes.
use robot_hal.Prelude.{
  ℕ, ◌+◌, ◌≡◌, refl, inl, inr, List, [], ◌∷◌, ◌++◌, arith, length, length-append, Option-cases, get,
  ltb, if◌then◌else◌,
}
use robot_hal.Core.Names.{ResourceId, SessionId, OwnerId, session_id_eq}
use robot_hal.Core.Lease.{u64_max}
use robot_hal.Core.Error.{HalResult}
use robot_hal.Runtime.Lifecycle.{commit_open}
use robot_hal.Runtime.Events.{
  RuntimeEvent, RuntimeEventKind, EventPublisher, publish, session_opened, session_closed,
}
use robot_hal.Runtime.Sessions.{Registry}
use robot_hal.Runtime.Registry.{finish_open, finish_close}
use robot_hal.Runtime.Registry.History.{
  Op, reserving, opening, cancelling, closing, revoking, finishing, World, step, run, start,
}

-- A count that stops at `u64::MAX`.
abbrev capped : ℕ → ℕ
capped n = if ltb n u64_max then n else u64_max

-- The events carry the numbers from `first` on.
abbrev AreNumbered : ℕ → List RuntimeEvent → Type 0
AreNumbered first [] = Unit {0}
AreNumbered first (event ∷ events) =
    (event.sequence ≡ capped first) × AreNumbered (first + 1) events

pub record IsNumbered (p : EventPublisher) : Type 0 where
  pub in_order : AreNumbered 1 p.sent
  pub next : p.next_sequence ≡ capped (length p.sent + 1)

AreNumbered-append :
    (first : ℕ) (events : List RuntimeEvent) (event : RuntimeEvent)
    → AreNumbered first events
    → event.sequence ≡ capped (first + length events)
    → AreNumbered first (events ++ event ∷ [])
AreNumbered-append first [] event h e = (ground arith, tt)
AreNumbered-append first (x ∷ events) event (same, h) e =
    (same, AreNumbered-append (first + 1) events event h (ground arith))

publish-IsNumbered :
    (p : EventPublisher) (kind : RuntimeEventKind) (r : ResourceId) (session : SessionId)
    (owner : OwnerId) (generation : ℕ)
    → IsNumbered p
    → IsNumbered (publish p kind r session owner generation)
unfolding publish
publish-IsNumbered p kind r session owner generation h =
    let event : RuntimeEvent = record {
      sequence = p.next_sequence;
      kind = kind;
      resource_id = r;
      session_id = session;
      owner_id = owner;
      lease_generation = generation;
    } in
    let next = h.next in
    let longer = length-append p.sent (event ∷ []) in
    record {
      in_order = AreNumbered-append 1 p.sent event h.in_order (ground arith);
      next = ground arith;
    }

module _ {Actor : Type 0} (reg : Registry Actor) (session : SessionId) (p : EventPublisher) where
  finish_open-IsNumbered :
      (actor : Actor) → IsNumbered p → IsNumbered (finish_open reg session actor p).1
  unfolding finish_open commit_open
  finish_open-IsNumbered actor h = elim (Option-cases (get session reg.sessions)) [
    | inl e ↦ rw (e, finish_open) h
    | inr (entry, e) ↦
        let published =
          publish-IsNumbered p session_opened entry.resource_id session entry.owner_id
            entry.lease.generation h in
        ground arith
  ]

  finish_close-IsNumbered :
      (result : HalResult (Unit {0}))
      → IsNumbered p
      → IsNumbered (finish_close reg session p result).1
  unfolding finish_close
  finish_close-IsNumbered result h = elim (Option-cases (get session reg.sessions)) [
    | inl e ↦ rw (e, finish_close) h
    | inr (entry, e) ↦
        let published =
          publish-IsNumbered p session_closed entry.resource_id session entry.owner_id
            entry.lease.generation h in
        ground arith
  ]

module _ {Actor : Type 0} where
  step-IsNumbered :
      (w : World Actor) (op : Op Actor) → IsNumbered w.events → IsNumbered (step w op).events
  unfolding step
  step-IsNumbered w (reserving r session owner fresh) h = h
  step-IsNumbered w (opening session actor) h =
      finish_open-IsNumbered w.registry session w.events actor h
  step-IsNumbered w (cancelling session) h = h
  step-IsNumbered w (closing session lease) h = h
  step-IsNumbered w (revoking owner) h = h
  step-IsNumbered w (finishing session result) h =
      finish_close-IsNumbered w.registry session w.events result h

  run-IsNumbered :
      (w : World Actor) (ops : List (Op Actor))
      → IsNumbered w.events
      → IsNumbered (run w ops).events
  unfolding run
  run-IsNumbered w [] h = h
  run-IsNumbered w (op ∷ ops) h = run-IsNumbered (step w op) ops (step-IsNumbered w op h)

-- After any history of calls, the published events carry the numbers 1, 2, 3 and so on in the order
-- in which they were published, without a gap, up to `u64::MAX`, which every later event repeats.
pub run-start-IsNumbered :
    {Actor : Type 0} (ops : List (Op Actor)) → IsNumbered (run (start Actor) ops).events
run-start-IsNumbered {Actor} ops =
    run-IsNumbered (start Actor) ops (record { in_order = tt; next = refl })
