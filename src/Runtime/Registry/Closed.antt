-- ===== src/Runtime/Registry/Closed.antt =====
-- The bounded memory of closed sessions.
use robot_hal.Prelude.{
  ◌≤◌, ◌<◌, ◌≡◌, refl, inl, inr, Bool, false, List, [], ◌∷◌, ◌++◌, Map, arith, Bool-cases,
  Option-cases, get, remove, ◌==◌, ==_iff, length, length-append, leb, any, contains_key,
  get-remove, get-insert, ◌||◌,
}
use robot_hal.Core.Names.{SessionId, session_id_eq, resource_id_eq}
use robot_hal.Core.Lease.{LeaseToken, lease_token_eq}
use robot_hal.Core.Error.{HalResult}
use robot_hal.Runtime.Events.{EventPublisher}
use robot_hal.Runtime.Registry.{make_room, remember_closed, finish_close}
use robot_hal.Runtime.Sessions.{Registry, closed_session_capacity}
use robot_hal.Runtime.LeaseTable.{release}

length-make_room :
    (order : List SessionId) (m : Map SessionId LeaseToken)
    → length (make_room order m).0 < closed_session_capacity
unfolding make_room
length-make_room [] m = omega arith
length-make_room (oldest ∷ order) m = ground (arith, length-make_room order (remove oldest m))

abbrev is_in : SessionId → List SessionId → Bool
is_in session = any (λ x. x == session)

abbrev Distinct : List SessionId → Type 0
Distinct [] = Unit {0}
Distinct (x ∷ xs) = (is_in x xs ≡ false) × Distinct xs

abbrev SameKeys : List SessionId → Map SessionId LeaseToken → Type 0
SameKeys order m = (session : SessionId) → contains_key session m ≡ is_in session order

make_room-SameKeys :
    (order : List SessionId) (m : Map SessionId LeaseToken)
    → Distinct order
    → SameKeys order m
    → SameKeys (make_room order m).0 (make_room order m).1 × Distinct (make_room order m).0
unfolding make_room
make_room-SameKeys [] m d h = (h, d)
make_room-SameKeys (oldest ∷ order) m d h =
    let dropped : SameKeys order (remove oldest m) =
      λ session. ground (arith, h session, get-remove oldest session m, ==_iff oldest session, d) in
    let rest = make_room-SameKeys order (remove oldest m) d.1 dropped in
    elim (Bool-cases (leb closed_session_capacity (length (oldest ∷ order)))) [
      | inl long ↦ rw long rest
      | inr short ↦ rw short (h, d)
    ]

make_room-keeps_out :
    (order : List SessionId) (m : Map SessionId LeaseToken) (session : SessionId)
    → is_in session order ≡ false
    → is_in session (make_room order m).0 ≡ false
unfolding make_room
make_room-keeps_out [] m session h = refl
make_room-keeps_out (oldest ∷ order) m session h =
    ground (arith, make_room-keeps_out order (remove oldest m) session)

is_in-append :
    (session new : SessionId) (order : List SessionId)
    → is_in session (order ++ (new ∷ [])) ≡ (is_in session order || new == session)
is_in-append session new [] = ground arith
is_in-append session new (x ∷ order) = ground (arith, is_in-append session new order)

Distinct-append :
    (new : SessionId) (order : List SessionId)
    → Distinct order
    → is_in new order ≡ false
    → Distinct (order ++ (new ∷ []))
Distinct-append new [] d h = (refl, tt)
Distinct-append new (x ∷ order) d h = (
  ground (arith, is_in-append x new order, ==_iff new x, ==_iff x new, d),
  Distinct-append new order d.1 (ground arith),
)

-- The order names each remembered session once, and there are at most 256.
pub record Remembers (order : List SessionId) (m : Map SessionId LeaseToken) : Type 0 where
  pub bounded : length order ≤ closed_session_capacity
  pub distinct : Distinct order
  pub same_keys : (session : SessionId) → contains_key session m ≡ is_in session order

abbrev pub RemembersClosed : {Actor : Type 0} → Registry Actor → Type 0
RemembersClosed reg = Remembers reg.closed_order reg.closed_sessions

module _ {Actor : Type 0} (reg : Registry Actor) (session : SessionId) where
  remembered :
      (lease : LeaseToken)
      → RemembersClosed reg
      → RemembersClosed (remember_closed reg session lease)
  unfolding remember_closed
  remembered lease h =
      let order = (make_room reg.closed_order reg.closed_sessions).0 in
      let m = (make_room reg.closed_order reg.closed_sessions).1 in
      let (keys, distinct) =
        make_room-SameKeys reg.closed_order reg.closed_sessions h.distinct h.same_keys in
      elim (Bool-cases (contains_key session reg.closed_sessions)) [
        | inl old ↦ rw old h
        | inr new ↦
            let out =
              make_room-keeps_out reg.closed_order reg.closed_sessions session
                (ground (arith, h.same_keys session)) in
            rw new (record {
              bounded = omega (
                arith,
                length-make_room reg.closed_order reg.closed_sessions,
                length-append order (session ∷ []),
              );
              distinct = Distinct-append session order distinct out;
              same_keys = λ j.
                  ground
                    (arith, keys j, is_in-append j session order, get-insert session j lease m);
            })
      ]

module _ {Actor : Type 0} (reg : Registry Actor) (session : SessionId) where
  pub finish_close_memory :
      (events : EventPublisher) (result : HalResult (Unit {0}))
      → RemembersClosed reg
      → RemembersClosed (finish_close reg session events result).0
  unfolding finish_close
  finish_close_memory events result h = elim (Option-cases (get session reg.sessions)) [
    | inl e ↦ rw (e, finish_close) h
    | inr (entry, e) ↦
        let (leases', exposed) = release reg.leases entry.resource_id session in
        let reg' : Registry Actor = record reg {
          sessions = remove session reg.sessions;
          leases = leases';
        } in
        rw (e, finish_close)
          (elim (Bool-cases exposed) [
            | inl shown ↦ rw shown (remembered reg' session entry.lease h)
            | inr hidden ↦ rw hidden h
          ])
  ]
