-- ===== src/Runtime/Registry/Backing.antt =====
-- Each session of the registry is backed by the lease of its resource.
use robot_hal.Prelude.{
  ◌≡◌, true, Option, none, some, Map, arith, get, insert, remove, get-insert, get-remove, is_some,
}
use robot_hal.Core.Names.{
  ResourceId, SessionId, OwnerId, resource_id_eq, session_id_eq, owner_id_eq, eq_resource_id_iff,
  eq_session_id_iff,
}
use robot_hal.Core.Lease.{LeaseToken, lease_token_eq}
use robot_hal.Core.Error.{ok}
use robot_hal.Runtime.LeaseTable.{ActiveLease, LeaseTable}
use robot_hal.Runtime.LeaseTable.Invariant.{IsValid}
use robot_hal.Runtime.Lifecycle.{active}
use robot_hal.Runtime.Registry.{new_entry}
use robot_hal.Runtime.Sessions.{Registry, SessionEntry}
use robot_hal.Runtime.LeaseTable.Active.{Reserves, fresh_lease}

module _ {Actor : Type 0} where
  -- The lease is the session's own; an active session has committed it and has an actor.
  abbrev pub Backs : SessionId → SessionEntry Actor → Option ActiveLease → Type 0
  Backs session entry none = ⊥
  Backs session entry (some lease) =
      (lease.session_id ≡ session)
      × (lease.owner_id ≡ entry.owner_id)
      × (lease.token ≡ entry.lease)
      × (entry.state ≡ active → (lease.committed ≡ true) × (is_some entry.actor ≡ true))

  -- Every session holds the active lease of its resource.
  abbrev pub AllBacked : LeaseTable → Map SessionId (SessionEntry Actor) → Type 0
  AllBacked t m =
      (session : SessionId) (entry : SessionEntry Actor)
      → get session m ≡ some entry
      → Backs session entry (get entry.resource_id t.active)

  pub record IsConsistent (reg : Registry Actor) : Type 0 where
    pub leases_valid : IsValid reg.leases
    pub backed : AllBacked reg.leases reg.sessions

  module _ (t t' : LeaseTable) (m : Map SessionId (SessionEntry Actor)) (session : SessionId) where
    pub reserved-AllBacked :
        (r : ResourceId) (owner : OwnerId) (token : LeaseToken)
        → Reserves t r session owner t' (ok token)
        → AllBacked t m
        → AllBacked t' (insert session (new_entry r owner token) m)
    reserved-AllBacked r owner token h all j entry e = ground (
      arith,
      eq_session_id_iff session j,
      eq_resource_id_iff r entry.resource_id,
      get-insert session j (new_entry r owner token) m,
      get-insert r entry.resource_id (fresh_lease session owner token) t.active,
      all j entry,
    )

    -- Rewriting a session's entry under the same lease.
    pub updated-AllBacked :
        (entry : SessionEntry Actor)
        → t'.active ≡ t.active
        → Backs session entry (get entry.resource_id t.active)
        → AllBacked t m
        → AllBacked t' (insert session entry m)
    updated-AllBacked entry h b all j other e =
        ground (arith, eq_session_id_iff session j, get-insert session j entry m, all j other)

    pub committed-AllBacked :
        (entry : SessionEntry Actor) (lease : ActiveLease)
        → get entry.resource_id t.active ≡ some lease
        → t'.active ≡ insert entry.resource_id (record lease { committed = true }) t.active
        → Backs session entry (some (record lease { committed = true }))
        → AllBacked t m
        → AllBacked t' (insert session entry m)
    committed-AllBacked entry lease g h b all j other e = ground (
      arith,
      eq_session_id_iff session j,
      eq_resource_id_iff entry.resource_id other.resource_id,
      get-insert session j entry m,
      get-insert entry.resource_id other.resource_id (record lease { committed = true }) t.active,
      all j other,
    )

    -- The session and the lease of its resource go together.
    pub removed-AllBacked :
        (entry : SessionEntry Actor)
        → get session m ≡ some entry
        → t'.active ≡ remove entry.resource_id t.active
        → AllBacked t m
        → AllBacked t' (remove session m)
    removed-AllBacked entry g h all j other e = ground (
      arith,
      eq_session_id_iff session j,
      eq_resource_id_iff entry.resource_id other.resource_id,
      get-remove session j m,
      get-remove entry.resource_id other.resource_id t.active,
      all j other,
      all session entry g,
    )
