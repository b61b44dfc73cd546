-- ===== src/Runtime/GpioManager/Guard.antt =====
-- Every step of the manager of GPIO sessions (crates/robot-hal-runtime/src/gpio_manager.rs) keeps its
-- lines guarded by the lease of the session whose worker may use them.
use robot_hal.Prelude.{
  ℕ, ◌≡◌, refl, sym, ◌∙◌, false, none, some, get, insert, get-insert, nat_eq, arith, ==_iff, inl,
  inr, ap,
}
use robot_hal.Core.Names.{ResourceId, SessionId, OwnerId, LeaseId, session_id_eq, resource_id_eq}
use robot_hal.Core.Error.{HalResult, ok, err}
use robot_hal.Core.Lease.{LeaseToken}
use robot_hal.Runtime.GpioManager.{
  Manager, Pending, Worker, reserve_open, spawn_worker, reserved_open,
}
use robot_hal.Runtime.GpioManager.Calls.{task_session, task_worker}
use robot_hal.Runtime.GpioManager.Steps.{IsNew, Owns, start}
use robot_hal.Runtime.GpioManager.Safety.{Holds, IsGuarded, insert_cases}
use robot_hal.Runtime.GpioManager.Changes.{more_leases-IsGuarded, reserve_holds}
use robot_hal.Runtime.LeaseTable.{LeaseTable, reserve_control}
use robot_hal.Runtime.LeaseTable.Active.{Reserves, reserve_control-Reserves}

pub start-IsGuarded : IsGuarded start
unfolding get
start-IsGuarded = record {
  held = λ w k at. absurd (ground (arith, at));
  alone = λ w v k j at. absurd (ground (arith, at));
  reserved = λ id p at. absurd (ground (arith, at));
  unspawned = λ id p at. absurd (ground (arith, at));
  spawned = λ id p w at. absurd (ground (arith, at));
  entries = λ id e at. absurd (ground (arith, at));
  waiting = λ n t at. absurd (ground (arith, at));
}

-- A new call of `open` that has its lease.
pending-IsGuarded :
    (m : Manager) (id : SessionId) (p : Pending)
    → IsGuarded m
    → IsNew m id
    → p.worker ≡ none
    → Holds m.leases p.resource id
    → IsGuarded (record m { opening = insert id p m.opening })
pending-IsGuarded m id p g (shut, gone, fresh, unknown) idle holds = record {
  held = g.held;
  alone = g.alone;
  reserved = λ j q at. elim (insert_cases id j p q m.opening at) [
    | inl (e, f) ↦ rw e (rw f holds)
    | inr (other, at') ↦ g.reserved j q at'
  ];
  unspawned = λ j q at is w k here. elim (insert_cases id j p q m.opening at) [
    | inl (e, f) ↦ rw e (fresh w k here)
    | inr (other, at') ↦ g.unspawned j q at' is w k here
  ];
  spawned = λ j q w at is. elim (insert_cases id j p q m.opening at) [
    | inl (e, f) ↦ absurd (ground (arith, f, is, idle))
    | inr (other, at') ↦ g.spawned j q w at' is
  ];
  entries = λ j e at. (
    (g.entries j e at).0,
    ground (arith, get-insert id j p m.opening, ==_iff id j, g.entries j e at, at, gone),
  );
  waiting = λ n t at. (
    (g.waiting n t at).0,
    ground (
      arith,
      get-insert id (task_session t) p m.opening,
      ==_iff id (task_session t),
      g.waiting n t at,
      unknown n t at,
    ),
  );
}

reserved-IsGuarded :
    (m : Manager) (owner : OwnerId) (resource : ResourceId) (id : SessionId) (t : LeaseTable)
    (result : HalResult LeaseToken)
    → IsGuarded m
    → IsNew m id
    → Reserves m.leases resource id owner t result
    → IsGuarded (reserved_open m owner resource id t result).0
reserved-IsGuarded m owner resource id t (err e) g new h =
    more_leases-IsGuarded m t g
      (λ r j. (reserve_holds m.leases t resource r id j owner (err e) h).0)
reserved-IsGuarded m owner resource id t (ok lease) g new h =
    let kept =
      more_leases-IsGuarded m t g
        (λ r j. (reserve_holds m.leases t resource r id j owner (ok lease) h).0) in
    let p : Pending = record { resource = resource; owner = owner; lease = lease; worker = none } in
    pending-IsGuarded (record m { leases = t }) id p kept new refl
      ((reserve_holds m.leases t resource resource id id owner (ok lease) h).1 refl)

pub reserve-IsGuarded :
    (m : Manager) (owner : OwnerId) (resource : ResourceId) (id : SessionId) (fresh : LeaseId)
    → IsGuarded m
    → IsNew m id
    → IsGuarded (reserve_open m owner resource id fresh).0
unfolding reserve_open
reserve-IsGuarded m owner resource id fresh g new =
    let (t, result) = reserve_control m.leases resource id owner fresh in
    reserved-IsGuarded m owner resource id t result g new
      (reserve_control-Reserves m.leases resource id owner fresh)

Owns-fresh :
    (m : Manager) (id : SessionId) (p : Pending) (w : ℕ) (j : SessionId) (v : ℕ)
    → get w m.workers ≡ none
    → Owns m j v
    → Owns (spawn_worker m id p w) j v
unfolding spawn_worker
Owns-fresh m id p w j v free (k, at, is) = (
  k,
  ground (
    arith,
    get-insert w v
        (record {
          resource = p.resource;
          session = id;
          answer = none;
          closing = false;
          completion = none;
        })
        m.workers,
    ==_iff w v,
    free,
    at,
  ),
  is,
)

-- The worker of a call of `open` starts, and has opened nothing yet.
pub spawn-IsGuarded :
    (m : Manager) (id : SessionId) (p : Pending) (w : ℕ)
    → IsGuarded m
    → get id m.opening ≡ some p
    → p.worker ≡ none
    → get w m.workers ≡ none
    → IsGuarded (spawn_worker m id p w)
unfolding spawn_worker
spawn-IsGuarded m id p w g at idle free =
    let k : Worker = record {
      resource = p.resource;
      session = id;
      answer = none;
      closing = false;
      completion = none;
    } in
    let p' : Pending = record p { worker = some w } in
    let kept : (j : SessionId) (v : ℕ) → Owns m j v → Owns (spawn_worker m id p w) j v =
      λ j v owns. Owns-fresh m id p w j v free owns in
    record {
      held = λ v j here may. elim (insert_cases w v k j m.workers here) [
        | inl (e, f) ↦ rw f (g.reserved id p at)
        | inr (other, here') ↦ g.held v j here' may
      ];
      alone = λ v u j i here there e. elim (insert_cases w v k j m.workers here) [
        | inl (a, b) ↦ elim (insert_cases w u k i m.workers there) [
          | inl (c, d) ↦ a ∙ sym c
          | inr (other, there') ↦
              absurd
                (g.unspawned id p at idle u i there' (sym e ∙ ap (λ (x : Worker). x.session) b))
        ]
        | inr (other, here') ↦ elim (insert_cases w u k i m.workers there) [
          | inl (c, d) ↦
              absurd (g.unspawned id p at idle v j here' (e ∙ ap (λ (x : Worker). x.session) d))
          | inr (other', there') ↦ g.alone v u j i here' there' e
        ]
      ];
      reserved = λ j q at'. elim (insert_cases id j p' q m.opening at') [
        | inl (e, f) ↦ rw e (rw f (g.reserved id p at))
        | inr (other, at'') ↦ g.reserved j q at''
      ];
      unspawned = λ j q at' is v i here same. elim (insert_cases id j p' q m.opening at') [
        | inl (e, f) ↦ ground (arith, f, is)
        | inr (other, at'') ↦ elim (insert_cases w v k i m.workers here) [
          | inl (c, d) ↦ other (sym same ∙ ap (λ (x : Worker). x.session) d)
          | inr (other', here') ↦ g.unspawned j q at'' is v i here' same
        ]
      ];
      spawned = λ j q v at' is. elim (insert_cases id j p' q m.opening at') [
        | inl (e, f) ↦ rw e (k, ground (arith, f, is, get-insert w v k m.workers, ==_iff w v), refl)
        | inr (other, at'') ↦ kept j v (g.spawned j q v at'' is)
      ];
      entries = λ j e at'. (
        kept j e.worker (g.entries j e at').0,
        ground (arith, get-insert id j p' m.opening, ==_iff id j, g.entries j e at', at),
      );
      waiting = λ n t at'. (
        kept (task_session t) (task_worker t) (g.waiting n t at').0,
        ground (
          arith,
          get-insert id (task_session t) p' m.opening,
          ==_iff id (task_session t),
          g.waiting n t at',
          at,
        ),
      );
    }
