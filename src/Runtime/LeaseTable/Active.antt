-- ===== src/Runtime/LeaseTable/Active.antt =====
-- What each operation does to the map of active leases.
use robot_hal.Prelude.{
  ◌≡◌, inl, inr, true, false, none, some, arith, Option-cases, get, insert, remove, ==_iff,
}
use robot_hal.Core.Names.{ResourceId, SessionId, OwnerId, LeaseId, resource_id_eq, session_id_eq}
use robot_hal.Core.Lease.{LeaseToken, lease_token_eq, eq_lease_token_iff}
use robot_hal.Core.Error.{HalResult, ok, err}
use robot_hal.Runtime.LeaseTable.{ActiveLease, LeaseTable, reserve_control, commit, release}

abbrev pub fresh_lease : SessionId → OwnerId → LeaseToken → ActiveLease
fresh_lease session owner token = record {
  session_id = session;
  owner_id = owner;
  token = token;
  committed = false;
}

-- A reservation either fails and keeps the active leases, or puts one on a free resource.
abbrev pub Reserves :
    LeaseTable → ResourceId → SessionId → OwnerId → LeaseTable → HalResult LeaseToken → Type 0
Reserves t r session owner t' (ok token) =
    (get r t.active ≡ none) × (t'.active ≡ insert r (fresh_lease session owner token) t.active)
Reserves t r session owner t' (err e) = t'.active ≡ t.active

pub reserve_control-Reserves :
    (t : LeaseTable) (r : ResourceId) (session : SessionId) (owner : OwnerId) (fresh : LeaseId)
    → let (t', result) = reserve_control t r session owner fresh in
      Reserves t r session owner t' result
unfolding reserve_control
reserve_control-Reserves t r session owner fresh = elim (Option-cases (get r t.active)) [
  | inl e ↦ ground arith
  | inr (l, e) ↦ ground arith
]

pub commit_active :
    (t : LeaseTable) (r : ResourceId) (session : SessionId) (token : LeaseToken)
    (lease : ActiveLease)
    → get r t.active ≡ some lease
    → lease.session_id ≡ session
    → lease.token ≡ token
    → ((commit t r session token).1 ≡ true)
      × ((commit t r session token).0.active
          ≡ insert r (record lease { committed = true }) t.active)
unfolding commit
commit_active t r session token lease h s k =
    ground (arith, ==_iff lease.session_id session, eq_lease_token_iff lease.token token)

pub release_active :
    (t : LeaseTable) (r : ResourceId) (session : SessionId) (lease : ActiveLease)
    → get r t.active ≡ some lease
    → lease.session_id ≡ session
    → ((release t r session).1 ≡ lease.committed)
      × ((release t r session).0.active ≡ remove r t.active)
unfolding release
release_active t r session lease h s = ground (arith, ==_iff lease.session_id session)
