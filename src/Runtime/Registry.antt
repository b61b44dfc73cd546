-- ===== src/Runtime/Registry.antt =====
-- crates/robot-hal-runtime/src/registry.rs: the serial sessions, open and lately closed.
-- An actor is a handle to a task and its queue, which the tokio library implements: its type is a
-- parameter, and what `try_send` answers is an argument of `enqueue`. A `watch` channel is the last
-- value that was sent on it; where an entry is dropped, that value is the method's second result.
pub mod Backing
pub mod Consistency
pub mod History
pub mod Closed
pub mod Closing
pub mod Numbering
mod Tests
use robot_hal.Prelude.{
  String, Bool, true, false, not, Option, none, some, List, [], ◌∷◌, ◌++◌, Map, get, insert, remove,
  contains_key, length, leb, ◌==◌, is_some, if◌then◌else◌,
}
use robot_hal.Core.Names.{
  ResourceId, SessionId, OwnerId, LeaseId, resource_id_eq, session_id_eq, owner_id_eq,
}
use robot_hal.Core.Lease.{LeaseToken, lease_token_eq}
use robot_hal.Core.Error.{
  HalError, HalResult, ok, err, ◌>>=◌, ◌>>◌, ok_or, map_err, with_resource_id,
}
use robot_hal.Runtime.LeaseTable.{LeaseTable, reserve_control, commit, validate, release}
use robot_hal.Runtime.LeaseTable
use robot_hal.Runtime.Lifecycle.{
  SessionLifecycle, opening, active, closing, is_closing, commit_open, begin_close, admit_io,
}
use robot_hal.Runtime.Events.{EventPublisher, session_opened, session_closed, publish}
use robot_hal.Runtime.Sessions.{
  CloseAction, Registry, RevokeTarget, SendOutcome, SerialCommand, SessionEntry, already_closed,
  closed_session_capacity, no_actor_error, session_closed_error, session_not_found, try_enqueue,
  validate_closed_lease, wait,
}

-- The `while` of `remember_closed`: the oldest sessions are forgotten until there is room.
unfoldable pub make_room :
    List SessionId → Map SessionId LeaseToken → List SessionId × Map SessionId LeaseToken
make_room [] m = ([], m)
make_room (oldest ∷ order) m =
    let rest = make_room order (remove oldest m) in
    if leb closed_session_capacity (length (oldest ∷ order)) then rest else (oldest ∷ order, m)

abbrev revoked_state : SessionLifecycle → SessionLifecycle
revoked_state state = elim (begin_close state "runtime.owner.revoke") [
  | ok next ↦ next
  | err _ ↦ closing
]

module _ {Actor : Type 0} where
  abbrev pub new_entry : ResourceId → OwnerId → LeaseToken → SessionEntry Actor
  new_entry r owner lease = record {
    resource_id = r;
    owner_id = owner;
    lease = lease;
    state = opening;
    actor = none;
    open_cancel = false;
  }

  -- The second part of `OpenReservation`, a receiver of the entry's `open_cancel`, is left out.
  unfoldable pub reserve_open :
      Registry Actor
      → ResourceId
      → SessionId
      → OwnerId
      → LeaseId
      → Registry Actor × HalResult LeaseToken
  reserve_open reg r session owner fresh =
      let (leases', result) = reserve_control reg.leases r session owner fresh in
      elim result [
        | err e ↦ (record reg { leases = leases' }, err e)
        | ok lease ↦ (
          record reg {
            leases = leases';
            sessions = insert session (new_entry r owner lease) reg.sessions;
          },
          ok lease,
        )
      ]

  -- Once the lease is committed only an opening session becomes active.
  abbrev pub open_committed :
      Registry Actor
      → SessionId
      → SessionEntry Actor
      → EventPublisher
      → Registry Actor × EventPublisher × Bool
  open_committed reg session entry events = elim (commit_open entry.state "serial.open") [
    | err e ↦ (reg, events, false)
    | ok state ↦ (
      record reg { sessions = insert session (record entry { state = state }) reg.sessions },
      publish events session_opened entry.resource_id session entry.owner_id entry.lease.generation,
      true,
    )
  ]

  unfoldable pub finish_open :
      Registry Actor → SessionId → Actor → EventPublisher → Registry Actor × EventPublisher × Bool
  finish_open reg session actor events = elim (get session reg.sessions) [
    | none ↦ (reg, events, false)
    | some found ↦
        let entry : SessionEntry Actor = record found { actor = some actor } in
        let reg' : Registry Actor = record reg { sessions = insert session entry reg.sessions } in
        let (leases', committed) = commit reg.leases entry.resource_id session entry.lease in
        if is_closing entry.state
        then (reg', events, false)
        else if not committed
        then (record reg' { leases = leases' }, events, false)
        else open_committed (record reg' { leases = leases' }) session entry events
  ]

  -- What is sent on `done` stands beside the new registry.
  unfoldable pub cancel_open :
      Registry Actor → SessionId → Registry Actor × Option (HalResult (Unit {0}))
  cancel_open reg session = elim (get session reg.sessions) [
    | none ↦ (reg, none)
    | some entry ↦ (
      record reg {
        sessions = remove session reg.sessions;
        leases = (release reg.leases entry.resource_id session).0;
      },
      some (ok tt),
    )
  ]

  unfoldable pub missing_session_error : Registry Actor → SessionId → LeaseToken → String → HalError
  missing_session_error reg session lease operation = elim (get session reg.closed_sessions) [
    | none ↦ session_not_found operation
    | some closed ↦ elim (validate_closed_lease closed lease operation) [
      | ok _ ↦ session_closed_error operation
      | err e ↦ e
    ]
  ]

  unfoldable pub enqueue :
      (Actor → SerialCommand → SendOutcome)
      → Registry Actor
      → SessionId
      → LeaseToken
      → SerialCommand
      → String
      → HalResult ResourceId
  unfolding missing_session_error
  enqueue try_send reg session lease command operation = elim (get session reg.sessions) [
    | none ↦ err (missing_session_error reg session lease operation)
    | some entry ↦ do
      validate reg.leases entry.resource_id session entry.owner_id lease operation
      map_err (λ e. with_resource_id e entry.resource_id) (admit_io entry.state operation)
      actor ←
          ok_or entry.actor
            (no_actor_error entry.resource_id operation "the active serial session has no actor")
      map_err (λ e. with_resource_id e entry.resource_id)
          (try_enqueue (try_send actor command) operation)
      ok entry.resource_id
  ]

  unfoldable pub closed_close_result :
      Registry Actor → SessionId → LeaseToken → HalResult (CloseAction Actor)
  closed_close_result reg session lease = do
    closed ← ok_or (get session reg.closed_sessions) (session_not_found "serial.close")
    validate_closed_lease closed lease "serial.close"
    ok already_closed

  abbrev pub close_entry :
      Registry Actor
      → SessionId
      → SessionEntry Actor
      → Registry Actor × HalResult (CloseAction Actor)
  close_entry reg session entry = elim (begin_close entry.state "serial.close") [
    | err e ↦ (reg, err e)
    | ok state ↦ (
      record reg { sessions = insert session (record entry { state = state }) reg.sessions },
      do
        actor ← ok_or entry.actor (
            no_actor_error entry.resource_id "serial.close"
              "the serial session is still opening and has no actor")
        ok (wait actor entry.resource_id),
    )
  ]

  -- `Registry::begin_close`
  unfoldable pub close_session :
      Registry Actor → SessionId → LeaseToken → Registry Actor × HalResult (CloseAction Actor)
  unfolding closed_close_result
  close_session reg session lease = elim (get session reg.sessions) [
    | none ↦ (reg, closed_close_result reg session lease)
    | some entry ↦
        elim (validate reg.leases entry.resource_id session entry.owner_id lease "serial.close") [
          | err e ↦ (reg, err e)
          | ok _ ↦ close_entry reg session entry
        ]
  ]

  abbrev pub revoked_entry : SessionEntry Actor → SessionEntry Actor
  revoked_entry entry = record entry {
    state = revoked_state entry.state;
    open_cancel = if is_some entry.actor then entry.open_cancel else true;
  }

  unfoldable pub revoke_entries :
      OwnerId
      → Map SessionId (SessionEntry Actor)
      → Map SessionId (SessionEntry Actor) × List (RevokeTarget Actor)
  revoke_entries owner [] = ([], [])
  revoke_entries owner ((session, entry) ∷ m) =
      let (m', targets) = revoke_entries owner m in
      if entry.owner_id == owner
      then (
        (session, revoked_entry entry) ∷ m',
        record { actor = entry.actor; session_id = session; resource_id = entry.resource_id }
            ∷ targets,
      )
      else ((session, entry) ∷ m', targets)

  unfoldable pub begin_revoke :
      Registry Actor → OwnerId → Registry Actor × List (RevokeTarget Actor)
  begin_revoke reg owner =
      let (m, targets) = revoke_entries owner reg.sessions in (record reg { sessions = m }, targets)

  unfoldable pub remember_closed : Registry Actor → SessionId → LeaseToken → Registry Actor
  remember_closed reg session lease =
      let (order, m) = make_room reg.closed_order reg.closed_sessions in
      if contains_key session reg.closed_sessions then reg else record reg {
        closed_order = order ++ (session ∷ []);
        closed_sessions = insert session lease m;
      }

  unfoldable pub finish_close :
      Registry Actor
      → SessionId
      → EventPublisher
      → HalResult (Unit {0})
      → Registry Actor × EventPublisher × Option (HalResult (Unit {0}))
  finish_close reg session events close_result = elim (get session reg.sessions) [
    | none ↦ (reg, events, none)
    | some entry ↦
        let (leases', exposed) = release reg.leases entry.resource_id session in
        let reg' : Registry Actor = record reg {
          sessions = remove session reg.sessions;
          leases = leases';
        } in
        if exposed
        then (
          remember_closed reg' session entry.lease,
          publish events session_closed entry.resource_id session entry.owner_id
              entry.lease.generation,
          some close_result,
        )
        else (reg', events, some close_result)
  ]

-- `Registry::default`
abbrev pub new_registry : (Actor : Type 0) → Registry Actor
new_registry Actor = record {
  leases = LeaseTable.empty;
  sessions = [];
  closed_sessions = [];
  closed_order = [];
}
