-- ===== src/Runtime/CanLeaseTable/Opened.antt =====
-- A CAN lease from its reservation to its first use: `reserve`, `commit` and `validate` of
-- crates/robot-hal-runtime/src/can_lease_table.rs.
use robot_hal.Prelude.{
  ◌+◌, ◌≤◌, ◌<◌, ◌≡◌, ◌↔◌, refl, ◌∙◌, String, true, Option, none, some, arith, get, get-insert,
  ==_refl, ==_iff,
}
use robot_hal.Core.Names.{
  ResourceId, SessionId, OwnerId, LeaseId, LeaseMode, observe, control, maintenance, resource_id_eq,
  session_id_eq, owner_id_eq, lease_id_eq, lease_mode_eq,
}
use robot_hal.Core.Lease.{LeaseToken, u64_max}
use robot_hal.Core.Error.{is_ok, ok}
use robot_hal.Runtime.CanLeaseTable.{
  reserve, reserve_in, commit, commit_in, validate, active_lease, only_if, pend,
}
use robot_hal.Runtime.CanLeases.{CanReservation, ResourceLeases, CanLeaseTable, LeaseEntry, is_of}
use robot_hal.Runtime.CanLeaseTable.Steps.{leases_at}
use robot_hal.Runtime.CanLeaseTable.Outcomes.{
  IsUnknown, OfOther, is_taken_iff, pended, rank, reservation, reserve_in_ok, validate_can_iff,
}

module _ (l : ResourceLeases) (r : ResourceId) (session : SessionId) (owner : OwnerId)
    (mode : LeaseMode) (first fresh : LeaseId) where
  -- The token of the next generation.
  abbrev pub next_token : LeaseToken
  next_token = record { lease_id = fresh; generation = l.last_generation + 1; mode = mode }

  abbrev next_entry : LeaseEntry
  next_entry = record { session_id = session; owner_id = owner; token = next_token }

  reserve_in-IsUnknown :
      (v : CanReservation)
      → (reserve_in l r session owner mode first).1 ≡ ok v
      → IsUnknown l session
  unfolding reserve_in
  reserve_in-IsUnknown v h = (is_taken_iff l session).0 (ground (arith, h))

  commit_in-pend :
      l.last_generation < u64_max
      → (commit_in
          (pend l session owner mode first)
          (reservation l r session owner mode first)
          fresh).1
        ≡ ok next_token
  unfolding commit_in
  commit_in-pend room =
      ground (
        arith,
        room,
        pended l r session owner mode first,
        ==_refl first,
        ==_refl owner,
        ==_refl mode,
      )

  -- What a commit of any reservation of the session comes to.
  commit_in-pend_iff :
      (other : LeaseId) (stranger : OwnerId) (asked : LeaseMode)
      → l.last_generation < u64_max
      → (is_ok
            (commit_in
              (pend l session owner mode first)
              (reservation l r session stranger asked other)
              fresh).1
          ≡ true)
        ↔ ((other ≡ first) × (stranger ≡ owner) × (asked ≡ mode))
  unfolding commit_in
  commit_in-pend_iff other stranger asked room = ground (
    arith,
    room,
    pended l r session owner mode first,
    ==_iff first other,
    ==_iff owner stranger,
    ==_iff mode asked,
  )

only_other :
    (session : SessionId) (o : Option LeaseEntry)
    → OfOther session o
    → only_if o (is_of session) ≡ none
only_other session none h = refl
only_other session (some entry) h = ground (arith, h, ==_iff entry.session_id session)

-- After the commit, `validate` looks at the new lease.
active_lease-commit_in :
    (l : ResourceLeases) (r : ResourceId) (session : SessionId) (owner : OwnerId) (mode : LeaseMode)
    (first fresh : LeaseId)
    → IsUnknown l session
    → l.last_generation < u64_max
    → active_lease
        (commit_in
          (pend l session owner mode first)
          (reservation l r session owner mode first)
          fresh).0
        session
      ≡ some (next_entry l r session owner mode first fresh)
unfolding active_lease commit_in
active_lease-commit_in l r session owner observe first fresh new room =
    let entry = next_entry l r session owner observe first fresh in
    ground (
      arith,
      room,
      pended l r session owner observe first,
      get-insert session session entry l.observes,
      ==_refl session,
      ==_refl first,
      ==_refl owner,
    )
active_lease-commit_in l r session owner control first fresh new room = ground (
  arith,
  room,
  pended l r session owner control first,
  new.not_observing,
  ==_refl session,
  ==_refl first,
  ==_refl owner,
)
active_lease-commit_in l r session owner maintenance first fresh new room = ground (
  arith,
  room,
  pended l r session owner maintenance first,
  new.not_observing,
  only_other session l.controller new.not_controlling,
  ==_refl session,
  ==_refl first,
  ==_refl owner,
)

-- What a reservation that succeeded leaves behind.
reserved :
    (t : CanLeaseTable) (r : ResourceId) (session : SessionId) (owner : OwnerId) (mode : LeaseMode)
    (first : LeaseId) (v : CanReservation)
    → (reserve t r session owner mode first).1 ≡ ok v
    → (get r (reserve t r session owner mode first).0.resources
        ≡ some (pend (leases_at t r) session owner mode first))
      × (v ≡ reservation (leases_at t r) r session owner mode first)
      × IsUnknown (leases_at t r) session
unfolding reserve
reserved t r session owner mode first v h =
    let l = leases_at t r in
    let (vacant, pending, e) = reserve_in_ok l r session owner mode first v h in
    (
      ground (
        arith,
        pending,
        ==_refl r,
        get-insert r r (reserve_in l r session owner mode first).0 t.resources,
      ),
      e,
      reserve_in-IsUnknown l r session owner mode first first v h,
    )

commit_at :
    (t : CanLeaseTable) (l : ResourceLeases) (v : CanReservation) (fresh : LeaseId)
    → get v.resource_id t.resources ≡ some l
    → ((commit t v fresh).1 ≡ (commit_in l v fresh).1)
      × (leases_at (commit t v fresh).0 v.resource_id ≡ (commit_in l v fresh).0)
unfolding commit
commit_at t l v fresh h = ground (
  arith,
  h,
  ==_refl v.resource_id,
  get-insert v.resource_id v.resource_id (commit_in l v fresh).0 t.resources,
)

-- A session that has reserved a CAN resource, whose generations are not exhausted, opens it: `commit`
-- of the reservation issues the token of the next generation, and `validate` then accepts this token
-- from the owner exactly for the operations whose required mode is not above the reserved one. For
-- that session, `commit` accepts a reservation exactly when its identifier, owner and mode are those
-- of the one that `reserve` returned.
pub opened_lease_serves :
    (t : CanLeaseTable) (r : ResourceId) (session : SessionId) (owner stranger : OwnerId)
    (mode required asked : LeaseMode) (first other fresh : LeaseId) (v : CanReservation)
    (operation : String)
    → (reserve t r session owner mode first).1 ≡ ok v
    → (leases_at t r).last_generation < u64_max
    → let t' = (reserve t r session owner mode first).0 in
      let token = next_token (leases_at t r) r session owner mode first fresh in
      ((commit t' v fresh).1 ≡ ok token)
      × ((validate (commit t' v fresh).0 r session owner token required operation ≡ ok tt)
          ↔ (rank required ≤ rank mode))
      × ((is_ok (commit t' (reservation (leases_at t r) r session stranger asked other) fresh).1
            ≡ true)
          ↔ ((other ≡ first) × (stranger ≡ owner) × (asked ≡ mode)))
opened_lease_serves t r session owner stranger mode required asked first other fresh v operation h
      room =
    let l = leases_at t r in
    let t' = (reserve t r session owner mode first).0 in
    let token = next_token l r session owner mode first fresh in
    let (entry, same, new) = reserved t r session owner mode first v h in
    let promise = reservation l r session owner mode first in
    let (answer, after) = commit_at t' (pend l session owner mode first) promise fresh entry in
    let (others, _) =
      commit_at t' (pend l session owner mode first) (reservation l r session stranger asked other)
        fresh entry in
    let active = active_lease-commit_in l r session owner mode first fresh new room in
    let accepts =
      validate_can_iff (commit t' promise fresh).0 r session owner token required operation in
    let found : active_lease (leases_at (commit t' promise fresh).0 r) session
        ≡ some (next_entry l r session owner mode first fresh) =
      rw after active in
    rw same (
      answer ∙ commit_in-pend l r session owner mode first fresh room,
      (
        λ x. (accepts.0 x).4,
        λ low. accepts.1 (next_entry l r session owner mode first fresh, found, refl, refl, low),
      ),
      rw others (commit_in-pend_iff l r session owner mode first fresh other stranger asked room),
    )
