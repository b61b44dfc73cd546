-- ===== src/Runtime/Registry/Consistency.antt =====
-- The operations of the registry keep every session backed by the lease of its resource.
use robot_hal.Prelude.{
  ◌≡◌, ◌≢◌, refl, sym, subst, inl, inr, ◌⊎◌, true, false, Option, none, some, [], ◌∷◌, Map, arith,
  Bool-cases, Option-cases, get, insert, remove, ◌==◌, ==_refl, get-insert,
}
use robot_hal.Core.Names.{
  ResourceId, SessionId, OwnerId, LeaseId, resource_id_eq, session_id_eq, owner_id_eq,
}
use robot_hal.Core.Lease.{LeaseToken}
use robot_hal.Core.Error.{HalResult, ok, err}
use robot_hal.Runtime.LeaseTable.{ActiveLease, LeaseTable, reserve_control, commit, release}
use robot_hal.Runtime.LeaseTable.Slot.{step, reserving, committing, releasing}
use robot_hal.Runtime.LeaseTable.Invariant.{IsValid, step-IsValid}
use robot_hal.Runtime.LeaseTable.Active.{
  Reserves, reserve_control-Reserves, commit_active, release_active,
}
use robot_hal.Runtime.Lifecycle.{active, closing, commit_open, begin_close}
use robot_hal.Runtime.Events.{EventPublisher}
use robot_hal.Runtime.Registry.{
  revoked_entry, revoke_entries, reserve_open, finish_open, cancel_open, close_session,
  begin_revoke, finish_close, remember_closed,
}
use robot_hal.Runtime.Sessions.{Registry, SessionEntry}
use robot_hal.Runtime.Registry.Backing.{
  Backs, AllBacked, IsConsistent, reserved-AllBacked, updated-AllBacked, committed-AllBacked,
  removed-AllBacked,
}

module _ {Actor : Type 0} (reg : Registry Actor) (session : SessionId) (h : IsConsistent reg) where
  pub backing :
      (entry : SessionEntry Actor)
      → get session reg.sessions ≡ some entry
      → (lease : ActiveLease) × (get entry.resource_id reg.leases.active ≡ some lease)
        × Backs session entry (some lease)
  backing entry e = go (get entry.resource_id reg.leases.active) refl (h.backed session entry e)
    where
      go :
          (o : Option ActiveLease)
          → get entry.resource_id reg.leases.active ≡ o
          → Backs session entry o
          → (lease : ActiveLease) × (get entry.resource_id reg.leases.active ≡ some lease)
            × Backs session entry (some lease)
      go none g b = absurd b
      go (some lease) g b = (lease, g, b)

  -- Whatever rewrites the session's entry under the same lease, resource and owner.
  updated :
      (entry entry' : SessionEntry Actor)
      → get session reg.sessions ≡ some entry
      → entry'.resource_id ≡ entry.resource_id
      → entry'.owner_id ≡ entry.owner_id
      → entry'.lease ≡ entry.lease
      → entry'.state ≢ active
      → IsConsistent (record reg { sessions = insert session entry' reg.sessions })
  updated entry entry' e r o k n =
      let (lease, g, b) = backing entry e in
      record {
        leases_valid = h.leases_valid;
        backed =
            updated-AllBacked reg.leases reg.leases reg.sessions session entry' refl
              (rw (r, g) (ground arith)) h.backed;
      }

  pub reserve_open-IsConsistent :
      (r : ResourceId) (owner : OwnerId) (fresh : LeaseId)
      → IsConsistent (reserve_open reg r session owner fresh).0
  unfolding reserve_open step
  reserve_open-IsConsistent r owner fresh =
      go (reserve_control reg.leases r session owner fresh).1 refl
        (reserve_control-Reserves reg.leases r session owner fresh)
    where
      t' : LeaseTable
      t' = (reserve_control reg.leases r session owner fresh).0

      valid : IsValid t'
      valid = step-IsValid reg.leases r (reserving session owner fresh) h.leases_valid

      go :
          (result : HalResult LeaseToken)
          → (reserve_control reg.leases r session owner fresh).1 ≡ result
          → Reserves reg.leases r session owner t' result
          → IsConsistent (reserve_open reg r session owner fresh).0
      go (err x) e k =
          rw (e, reserve_open) (record { leases_valid = valid; backed = rw k h.backed })
      go (ok token) e k =
          rw (e, reserve_open)
            (record {
              leases_valid = valid;
              backed =
                  reserved-AllBacked reg.leases t' reg.sessions session r owner token k h.backed;
            })

  pub cancel_open-IsConsistent : IsConsistent (cancel_open reg session).0
  unfolding cancel_open step
  cancel_open-IsConsistent = elim (Option-cases (get session reg.sessions)) [
    | inl e ↦ rw (e, cancel_open) h
    | inr (entry, e) ↦
        rw (e, cancel_open)
          (let (lease, g, b) = backing entry e in
            record {
              leases_valid =
                  step-IsValid reg.leases entry.resource_id (releasing session) h.leases_valid;
              backed =
                  removed-AllBacked reg.leases (release reg.leases entry.resource_id session).0
                    reg.sessions session entry e
                    (release_active reg.leases entry.resource_id session lease g b.0).1 h.backed;
            })
  ]

  close_session_shape :
      (lease : LeaseToken) (entry : SessionEntry Actor)
      → get session reg.sessions ≡ some entry
      → ((close_session reg session lease).0 ≡ reg)
        ⊎ ((close_session reg session lease).0 ≡ record reg {
          sessions = insert session (record entry { state = closing }) reg.sessions;
        })
  unfolding close_session begin_close
  close_session_shape lease entry e = ground arith

  pub close_session-IsConsistent :
      (lease : LeaseToken) → IsConsistent (close_session reg session lease).0
  unfolding close_session
  close_session-IsConsistent lease = elim (Option-cases (get session reg.sessions)) [
    | inl e ↦ rw (e, close_session) h
    | inr (entry, e) ↦ elim (close_session_shape lease entry e) [
      | inl same ↦ subst IsConsistent (sym same) h
      | inr moved ↦
          subst IsConsistent (sym moved)
            (updated entry (record entry { state = closing }) e refl refl refl (λ k. cc))
    ]
  ]

  finish_open_shape :
      (actor : Actor) (events : EventPublisher) (entry : SessionEntry Actor)
      → get session reg.sessions ≡ some entry
      → let reg' = (finish_open reg session actor events).0 in
        let waiting : SessionEntry Actor = record entry { actor = some actor } in
        let t' = (commit reg.leases entry.resource_id session entry.lease).0 in
        let m = insert session waiting reg.sessions in
        ((entry.state ≡ closing) × (reg' ≡ record reg { sessions = m }))
        ⊎ (((commit reg.leases entry.resource_id session entry.lease).1 ≡ false)
            × (reg' ≡ record reg { leases = t'; sessions = m }))
        ⊎ (reg' ≡ record reg { leases = t'; sessions = m })
        ⊎ (reg' ≡ record reg {
          leases = t';
          sessions = insert session (record waiting { state = active }) m;
        })
  unfolding finish_open commit_open
  finish_open_shape actor events entry e = ground arith

  -- Committing the lease of a session that has its actor, and activating it afterwards.
  opened :
      (actor : Actor) (entry : SessionEntry Actor)
      → get session reg.sessions ≡ some entry
      → let waiting : SessionEntry Actor = record entry { actor = some actor } in
        let t' = (commit reg.leases entry.resource_id session entry.lease).0 in
        let m = insert session waiting reg.sessions in
        ((commit reg.leases entry.resource_id session entry.lease).1 ≡ true)
        × IsValid t'
        × AllBacked t' m
        × AllBacked t' (insert session (record waiting { state = active }) m)
  unfolding step
  opened actor entry e =
      let (lease, g, b) = backing entry e in
      let waiting : SessionEntry Actor = record entry { actor = some actor } in
      let t' = (commit reg.leases entry.resource_id session entry.lease).0 in
      let m = insert session waiting reg.sessions in
      let (done, moved) =
        commit_active reg.leases entry.resource_id session entry.lease lease g b.0 b.2 in
      let first : AllBacked t' m =
        committed-AllBacked reg.leases t' reg.sessions session waiting lease g moved
          (ground (arith, b)) h.backed in
      (
        done,
        step-IsValid reg.leases entry.resource_id (committing session entry.lease) h.leases_valid,
        first,
        updated-AllBacked t' t' m session (record waiting { state = active }) refl
            (ground (
              arith,
              b,
              moved,
              ==_refl entry.resource_id,
              get-insert entry.resource_id entry.resource_id (record lease { committed = true })
                  reg.leases.active,
            ))
            first,
      )

  pub finish_open-IsConsistent :
      (actor : Actor) (events : EventPublisher)
      → IsConsistent (finish_open reg session actor events).0
  unfolding finish_open
  finish_open-IsConsistent actor events = elim (Option-cases (get session reg.sessions)) [
    | inl e ↦ rw (e, finish_open) h
    | inr (entry, e) ↦
        let (done, valid, waiting, live) = opened actor entry e in
        elim (finish_open_shape actor events entry e) [
          | inl (shut, same) ↦
              subst IsConsistent (sym same)
                (updated entry (record entry { actor = some actor }) e refl refl refl (λ k. cc))
          | inr (inl (failed, same)) ↦ cc
          | inr (inr (inl same)) ↦
              subst IsConsistent (sym same) (record { leases_valid = valid; backed = waiting })
          | inr (inr (inr same)) ↦
              subst IsConsistent (sym same) (record { leases_valid = valid; backed = live })
        ]
  ]

  finish_close_core :
      (events : EventPublisher) (result : HalResult (Unit {0})) (entry : SessionEntry Actor)
      → get session reg.sessions ≡ some entry
      → let reg' = (finish_close reg session events result).0 in
        (reg'.leases ≡ (release reg.leases entry.resource_id session).0)
        × (reg'.sessions ≡ remove session reg.sessions)
  unfolding finish_close remember_closed
  finish_close_core events result entry e = ground arith

  pub finish_close-IsConsistent :
      (events : EventPublisher) (result : HalResult (Unit {0}))
      → IsConsistent (finish_close reg session events result).0
  unfolding finish_close step
  finish_close-IsConsistent events result = elim (Option-cases (get session reg.sessions)) [
    | inl e ↦ rw (e, finish_close) h
    | inr (entry, e) ↦
        let (lease, g, b) = backing entry e in
        let (l, m) = finish_close_core events result entry e in
        record {
          leases_valid =
              subst IsValid (sym l)
                (step-IsValid reg.leases entry.resource_id (releasing session) h.leases_valid);
          backed =
              subst (λ t. AllBacked t (finish_close reg session events result).0.sessions) (sym l)
                (subst (AllBacked (release reg.leases entry.resource_id session).0) (sym m) (
                  removed-AllBacked reg.leases (release reg.leases entry.resource_id session).0
                    reg.sessions session entry e
                    (release_active reg.leases entry.resource_id session lease g b.0).1 h.backed));
        }
  ]

module _ {Actor : Type 0} where
  -- Revocation keeps each entry or marks it, in place.
  get-revoke :
      (owner : OwnerId) (m : Map SessionId (SessionEntry Actor)) (session : SessionId)
      (entry' : SessionEntry Actor)
      → get session (revoke_entries owner m).0 ≡ some entry'
      → (entry : SessionEntry Actor) × (get session m ≡ some entry)
        × ((entry' ≡ entry) ⊎ (entry' ≡ revoked_entry entry))
  unfolding revoke_entries get
  get-revoke owner [] session entry' e = ground arith
  get-revoke owner ((j, first) ∷ m) session entry' e = elim (Bool-cases (j == session)) [
    | inl here ↦ (first, ground arith, ground arith)
    | inr there ↦
        let (entry, g, c) = get-revoke owner m session entry' (ground arith) in
        (entry, ground arith, c)
  ]

  pub begin_revoke-IsConsistent :
      (reg : Registry Actor) (owner : OwnerId)
      → IsConsistent reg
      → IsConsistent (begin_revoke reg owner).0
  unfolding begin_revoke begin_close
  begin_revoke-IsConsistent reg owner h = record {
    leases_valid = h.leases_valid;
    backed = λ session entry' e.
        let (entry, g, c) = get-revoke owner reg.sessions session entry' e in
        let (lease, k, b) = backing reg session h entry g in ground (arith, b);
  }
