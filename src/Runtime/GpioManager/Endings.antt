-- ===== src/Runtime/GpioManager/Endings.antt =====
-- The end of an open of crates/robot-hal-runtime/src/gpio_manager.rs keeps the invariant of its
-- manager.
use robot_hal.Prelude.{
  ℕ, ◌≡◌, refl, sym, ◌∙◌, String, Bool, true, false, Option, none, some, get, insert, get-remove,
  nat_eq, arith, ==_iff, subst, ap,
}
use robot_hal.Core.Names.{ResourceId, SessionId, session_id_eq, resource_id_eq}
use robot_hal.Core.Error.{HalResult, ok, err}
use robot_hal.Runtime.GpioManager.{
  Manager, Pending, Worker, Entry, answered, commit_open, finish_open, leave_open, quarantine_open,
  release_lease, release_reservation, request_close,
}
use robot_hal.Runtime.GpioManager.Steps.{Owns}
use robot_hal.Runtime.GpioManager.Safety.{IsGuarded, MayHold, Unrefused, keep_worker, Owns-insert}
use robot_hal.Runtime.GpioManager.Changes.{
  more_leases-IsGuarded, add_session-IsGuarded, add_task-IsGuarded, holds_commit,
  leave_open-IsGuarded, release-IsGuarded,
}
use robot_hal.Runtime.LeaseTable.{commit}

-- No worker of the session may hold its device.
abbrev pub Idle : Manager → SessionId → Type 0
Idle m id = (w : ℕ) (k : Worker) → get w m.workers ≡ some k → k.session ≡ id → ¬ MayHold k

-- A call of `open` that gives its lease back.
pub quit-IsGuarded :
    (m : Manager) (resource : ResourceId) (id : SessionId)
    → IsGuarded m
    → Idle m id
    → IsGuarded (leave_open (release_lease m resource id) id)
unfolding release_lease
quit-IsGuarded m resource id g idle =
    release-IsGuarded (leave_open m id) resource id (leave_open-IsGuarded m id g)
      (ground (arith, get-remove id id m.opening, ==_iff id id)) idle

shut_down-IsGuarded :
    (m : Manager) (w : ℕ) (o : Option Worker)
    → get w m.workers ≡ o
    → IsGuarded m
    → IsGuarded (record m {
      workers = elim o [
        | none ↦ m.workers
        | some k ↦ insert w (record k { closing = true }) m.workers
      ];
    })
shut_down-IsGuarded m w none at g = g
shut_down-IsGuarded m w (some k) at g =
    keep_worker m w k (record k { closing = true }) g at refl refl (λ may. may)

pub request_close-IsGuarded : (m : Manager) (w : ℕ) → IsGuarded m → IsGuarded (request_close m w)
request_close-IsGuarded m w g = shut_down-IsGuarded m w (get w m.workers) refl g

pub Owns-shut_down :
    (m : Manager) (w : ℕ) (o : Option Worker) (id : SessionId) (v : ℕ)
    → get w m.workers ≡ o
    → Owns m id v
    → Owns
        (record m {
          workers = elim o [
            | none ↦ m.workers
            | some k ↦ insert w (record k { closing = true }) m.workers
          ];
        })
        id
        v
Owns-shut_down m w none id v at owns = owns
Owns-shut_down m w (some k) id v at owns =
    Owns-insert m id v w k (record k { closing = true }) at refl owns

quarantine-IsGuarded :
    (m : Manager) (id : SessionId) (p : Pending) (w n : ℕ)
    → IsGuarded m
    → Owns m id w
    → IsGuarded (quarantine_open m id p w n)
unfolding quarantine_open
quarantine-IsGuarded m id p w n g owns =
    add_task-IsGuarded (leave_open (request_close m w) id) n (release_reservation p.resource id w)
      (leave_open-IsGuarded (request_close m w) id (request_close-IsGuarded m w g))
      (Owns-shut_down m w (get w m.workers) id w refl owns)
      (ground (arith, get-remove id id m.opening, ==_iff id id))

committed-IsGuarded :
    (m : Manager) (id : SessionId) (p : Pending) (w n : ℕ) (done : Bool)
    → IsGuarded m
    → Owns m id w
    → (commit m.leases p.resource id p.lease).1 ≡ done
    → IsGuarded (commit_open m id p w n).0
unfolding commit_open
committed-IsGuarded m id p w n false g owns e = rw e (quarantine-IsGuarded m id p w n g owns)
committed-IsGuarded m id p w n true g owns e =
    let t = (commit m.leases p.resource id p.lease).0 in
    let kept =
      more_leases-IsGuarded m t g (λ r j. holds_commit m.leases p.resource r id j p.lease) in
    let entry : Entry = record { resource = p.resource; owner = p.owner; worker = w } in
    rw e (
      add_session-IsGuarded (leave_open (record m { leases = t }) id) id entry
        (leave_open-IsGuarded (record m { leases = t }) id kept) owns
        (ground (arith, get-remove id id m.opening, ==_iff id id)))

some_inj {ℓ} : {A : Type ℓ} {a b : A} → some a ≡ some b → a ≡ b
some_inj h = ground arith

pub Idle-of_ended :
    (m : Manager) (id : SessionId) (w : ℕ) (k : Worker)
    → IsGuarded m
    → get w m.workers ≡ some k
    → k.session ≡ id
    → ¬ MayHold k
    → Idle m id
Idle-of_ended m id w k g at is ended v j at' is' may =
    let same = g.alone v w j k at' at (is' ∙ sym is) in
    ended (subst MayHold (some_inj (sym at' ∙ (ap (λ (x : ℕ). get x m.workers) same ∙ at))) may)

answered-IsGuarded :
    (m : Manager) (id : SessionId) (p : Pending) (w n : ℕ) (timeout : String) (k : Worker)
    (answer completion : Option (HalResult (Unit {0})))
    → IsGuarded m
    → get w m.workers ≡ some k
    → k.session ≡ id
    → k.answer ≡ answer
    → k.completion ≡ completion
    → IsGuarded (answered m id p w n timeout answer completion).0
answered-IsGuarded m id p w n timeout k (some (ok u)) completion g at is a c =
    committed-IsGuarded m id p w n (commit m.leases p.resource id p.lease).1 g (k, at, is) refl
answered-IsGuarded m id p w n timeout k (some (err e)) completion g at is a c =
    quit-IsGuarded m p.resource id g
      (Idle-of_ended m id w k g at is (λ (end, fine). subst Unrefused a fine))
answered-IsGuarded m id p w n timeout k none (some result) g at is a c =
    quit-IsGuarded m p.resource id g
      (Idle-of_ended m id w k g at is (λ (end, fine). ground (arith, end, c)))
answered-IsGuarded m id p w n timeout k none none g at is a c =
    quarantine-IsGuarded m id p w n g (k, at, is)

pub finish_open-IsGuarded :
    (m : Manager) (id : SessionId) (p : Pending) (w n : ℕ) (timeout : String)
    → IsGuarded m
    → Owns m id w
    → IsGuarded (finish_open m id p w n timeout).0
unfolding finish_open
finish_open-IsGuarded m id p w n timeout g (k, at, is) =
    rw (at, finish_open)
      (answered-IsGuarded m id p w n timeout k k.answer k.completion g at is refl refl)
