-- ===== src/Runtime/GpioManager.antt =====
-- crates/robot-hal-runtime/src/gpio_manager.rs: sessions on groups of GPIO lines. Each session has a
-- worker thread that opens the native session, serves it and closes it. A worker is shared by the
-- entry of its session and by background tasks, so workers stand in a store of their own, with what
-- their channels hold: the answer to the open, the request to shut down and the completion.
-- A worker remembers the resource and the session it was spawned for. `opening` holds the locals of
-- the calls of `open` that wait for their worker.
mod Calls
mod Steps
mod Safety
mod Changes
mod Guard
mod Endings
mod Turns
mod Exclusive
mod Revoke
mod Tests
use robot_hal.Prelude.{
  ℕ, String, Bool, true, false, not, Option, none, some, List, Map, get, insert, remove,
  if◌then◌else◌, nat_eq, concat,
}
use robot_hal.Core.Names.{
  ResourceId, SessionId, OwnerId, LeaseId, CapabilityId, unavailable, conflict, internal,
  session_id_eq, owner_id_eq, resource_id_eq,
}
use robot_hal.Core.Error.{HalError, HalResult, ok, err, ◌>>=◌, ◌>>◌, ok_or, with_resource_id}
use robot_hal.Core.Lease.{LeaseToken}
use robot_hal.Core.Resolution.{ResourceDescriptor, ResourceSelector, resolve_resource}
use robot_hal.Runtime.Errors.{runtime_error}
use robot_hal.Runtime.LeaseTable.{LeaseTable, reserve_control, commit, release}

pub record Worker : Type 0 where
  pub resource : ResourceId
  pub session : SessionId
  pub answer : Option (HalResult (Unit {0}))
  pub closing : Bool
  pub completion : Option (HalResult (Unit {0}))

pub record Entry : Type 0 where
  pub resource : ResourceId
  pub owner : OwnerId
  pub worker : ℕ

-- The tasks of `reap_when_finished` and `release_reservation_when_finished`.
pub data Task : Type 0 where
  reap : SessionId → ℕ → Task
  release_reservation : ResourceId → SessionId → ℕ → Task

-- A call of `open` after its reservation; it has no worker before it has spawned one.
pub record Pending : Type 0 where
  pub resource : ResourceId
  pub owner : OwnerId
  pub lease : LeaseToken
  pub worker : Option ℕ

pub record Manager : Type 0 where
  pub leases : LeaseTable
  pub sessions : Map SessionId Entry
  pub closed : Map SessionId (ResourceId × OwnerId)
  pub workers : Map ℕ Worker
  pub tasks : Map ℕ Task
  pub opening : Map SessionId Pending

abbrev actor_unavailable : String → HalError
actor_unavailable operation =
    runtime_error "runtime.actor.unavailable" internal operation false
      "the GPIO line group worker terminated before completing the operation"

abbrev pub session_closed : String → HalError
session_closed operation =
    runtime_error "runtime.session.closed" conflict operation false "the GPIO session is closed"

-- `{timeout:?}` is an argument, as the text that it prints.
abbrev close_timeout : String → String → HalError
close_timeout operation timeout =
    runtime_error "runtime.session.close_timeout" unavailable operation false (
      concat "GPIO worker did not release its native session within "
        (concat timeout "; the resource remains quarantined"))

abbrev open_timeout : String → String → HalError
open_timeout operation timeout =
    runtime_error "runtime.transport.timeout" unavailable operation true (
      concat "GPIO worker did not finish opening within "
        (concat timeout "; the resource remains quarantined"))

-- `GpioManager::adapter`, and what the enumeration of a registered adapter returned.
unfoldable enumerated :
    Option (HalResult (List ResourceDescriptor)) → String → HalResult (List ResourceDescriptor)
enumerated adapter operation =
    ok_or adapter (
      runtime_error "runtime.adapter.not_configured" unavailable operation false
        "no GPIO adapter was registered")
    >>= λ found. found

-- The first steps of `open`, up to its reservation: no lock is held.
unfoldable resolve_open :
    Option (HalResult (List ResourceDescriptor))
    → ResourceSelector
    → CapabilityId
    → HalResult ResourceDescriptor
unfolding enumerated resolve_resource
resolve_open adapter selector capability = do
  descriptors ← enumerated adapter "gpio.open"
  resolve_resource descriptors selector capability "gpio.open"

abbrev pub reserved_open :
    Manager
    → OwnerId
    → ResourceId
    → SessionId
    → LeaseTable
    → HalResult LeaseToken
    → Manager × HalResult LeaseToken
reserved_open m owner resource id leases (err e) = (record m { leases = leases }, err e)
reserved_open m owner resource id leases (ok lease) =
    let pending : Pending = record {
      resource = resource;
      owner = owner;
      lease = lease;
      worker = none;
    } in
    (record m { leases = leases; opening = insert id pending m.opening }, ok lease)

-- `open`: the reservation, with the new session's identifier and that of its lease.
unfoldable pub reserve_open :
    Manager → OwnerId → ResourceId → SessionId → LeaseId → Manager × HalResult LeaseToken
reserve_open m owner resource id fresh =
    let (leases, reserved) = reserve_control m.leases resource id owner fresh in
    reserved_open m owner resource id leases reserved

-- `spawn_worker` succeeds.
unfoldable pub spawn_worker : Manager → SessionId → Pending → ℕ → Manager
spawn_worker m id p w =
    let worker : Worker = record {
      resource = p.resource;
      session = id;
      answer = none;
      closing = false;
      completion = none;
    } in
    record m {
      workers = insert w worker m.workers;
      opening = insert id (record p { worker = some w }) m.opening;
    }

-- `GpioWorker::request_close`
abbrev shut_down : ℕ → Map ℕ Worker → Map ℕ Worker
shut_down w workers = elim (get w workers) [
  | none ↦ workers
  | some worker ↦ insert w (record worker { closing = true }) workers
]

abbrev pub request_close : Manager → ℕ → Manager
request_close m w = record m { workers = shut_down w m.workers }

-- `leases.release(resource, id)`
unfoldable pub release_lease : Manager → ResourceId → SessionId → Manager
unfolding release
release_lease m resource id = record m { leases = (release m.leases resource id).0 }

-- The call of `open` returns.
abbrev pub leave_open : Manager → SessionId → Manager
leave_open m id = record m { opening = remove id m.opening }

abbrev pub add_task : Manager → ℕ → Task → Manager
add_task m n task = record m { tasks = insert n task m.tasks }

-- `open` after a failed `spawn_worker`
unfoldable pub spawn_failed :
    Manager → SessionId → Pending → HalError → Manager × HalResult (SessionId × LeaseToken)
unfolding release_lease
spawn_failed m id p e = (leave_open (release_lease m p.resource id) id, err e)

-- The reservation is kept until the worker has finished.
unfoldable pub quarantine_open : Manager → SessionId → Pending → ℕ → ℕ → Manager
quarantine_open m id p w n =
    add_task (leave_open (request_close m w) id) n (release_reservation p.resource id w)

-- The end of `open`, once the worker has opened its native session.
unfoldable pub commit_open :
    Manager → SessionId → Pending → ℕ → ℕ → Manager × HalResult (SessionId × LeaseToken)
commit_open m id p w n =
    let (leases, committed) = commit m.leases p.resource id p.lease in
    if not committed
    then (
      quarantine_open m id p w n,
      err (
          runtime_error "runtime.session.closed" conflict "gpio.open" false
            "GPIO open was cancelled"),
    )
    else (
      leave_open
          (record m {
            leases = leases;
            sessions =
                insert id (record { resource = p.resource; owner = p.owner; worker = w })
                  m.sessions;
          })
          id,
      ok (id, p.lease),
    )

-- The match of `open` on the answer of the worker: an answer, a thread that ended without one, or
-- neither when the time is over.
abbrev pub answered :
    Manager
    → SessionId
    → Pending
    → ℕ
    → ℕ
    → String
    → Option (HalResult (Unit {0}))
    → Option (HalResult (Unit {0}))
    → Manager × HalResult (SessionId × LeaseToken)
answered m id p w n timeout (some (ok u)) completion = commit_open m id p w n
answered m id p w n timeout (some (err e)) completion =
    (leave_open (release_lease m p.resource id) id, err e)
answered m id p w n timeout none (some result) =
    (leave_open (release_lease m p.resource id) id, err (actor_unavailable "gpio.open"))
answered m id p w n timeout none none = (
  quarantine_open m id p w n,
  err (with_resource_id (open_timeout "gpio.open" timeout) p.resource),
)

unfoldable pub finish_open :
    Manager → SessionId → Pending → ℕ → ℕ → String → Manager × HalResult (SessionId × LeaseToken)
unfolding release_lease
finish_open m id p w n timeout = elim (get w m.workers) [
  | none ↦ (m, err (actor_unavailable "gpio.open"))
  | some worker ↦ answered m id p w n timeout worker.answer worker.completion
]
