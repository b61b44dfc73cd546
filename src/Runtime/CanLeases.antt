-- ===== src/Runtime/CanLeases.antt =====
-- The leases of one CAN resource in crates/robot-hal-runtime/src/can_lease_table.rs: the records, the
-- errors and the two tests of `reserve`.
use robot_hal.Prelude.{
  ℕ, String, Bool, true, false, not, ◌&&◌, ◌||◌, Option, none, List, [], Map, contains_key, values,
  any, is_some, is_some_and, ◌==◌,
}
use robot_hal.Core.Names.{
  ResourceId, SessionId, OwnerId, LeaseId, LeaseMode, control, maintenance, conflict,
  resource_id_eq, session_id_eq, owner_id_eq, lease_id_eq, lease_mode_eq,
}
use robot_hal.Core.Lease.{LeaseToken, lease_token_eq}
use robot_hal.Core.Error.{HalError, with_resource_id}
use robot_hal.Runtime.Errors.{runtime_error}

pub record CanReservation : Type 0 where
  pub resource_id : ResourceId
  pub session_id : SessionId
  pub owner_id : OwnerId
  pub reservation_id : LeaseId
  pub mode : LeaseMode

pub record LeaseEntry : Type 0 where
  pub session_id : SessionId
  pub owner_id : OwnerId
  pub token : LeaseToken

pub record PendingEntry : Type 0 where
  pub reservation_id : LeaseId
  pub owner_id : OwnerId
  pub mode : LeaseMode

pub record ResourceLeases : Type 0 where
  pub last_generation : ℕ
  pub pending : Map SessionId PendingEntry
  pub observes : Map SessionId LeaseEntry
  pub controller : Option LeaseEntry
  pub maintainer : Option LeaseEntry

pub record CanLeaseTable : Type 0 where
  pub resources : Map ResourceId ResourceLeases

-- `ResourceLeases::default`
abbrev pub no_leases : ResourceLeases
no_leases = record {
  last_generation = 0;
  pending = [];
  observes = [];
  controller = none;
  maintainer = none;
}

abbrev pub is_vacant {ℓ} : {A : Type ℓ} → List A → Bool
is_vacant [] = true
is_vacant _ = false

-- `ResourceLeases::is_empty`
abbrev pub has_no_lease : ResourceLeases → Bool
has_no_lease l =
    is_vacant l.pending
    && (is_vacant l.observes && (not (is_some l.controller) && not (is_some l.maintainer)))

abbrev has_any_lease : ResourceLeases → Bool
has_any_lease l = not (has_no_lease l)

abbrev pub conflict_error : ResourceId → String → HalError
conflict_error r message =
    with_resource_id (runtime_error "runtime.lease.conflict" conflict "can.open" false message) r

abbrev pub session_closed : ResourceId → String → HalError
session_closed r operation =
    with_resource_id
      (runtime_error "runtime.session.closed" conflict operation false "the CAN session is closed")
      r

abbrev pub has_mode : LeaseMode → PendingEntry → Bool
has_mode mode p = p.mode == mode

abbrev pub is_of : SessionId → LeaseEntry → Bool
is_of session l = l.session_id == session

-- The first test of `reserve`: the session already owns or is opening a lease.
unfoldable pub is_taken : ResourceLeases → SessionId → Bool
is_taken l session =
    contains_key session l.pending
    || (contains_key session l.observes
        || (is_some_and l.controller (is_of session) || is_some_and l.maintainer (is_of session)))

unfoldable pub is_incompatible : ResourceLeases → LeaseMode → Bool
is_incompatible l maintenance = has_any_lease l
is_incompatible l mode =
    is_some l.maintainer
    || (any (has_mode maintenance) (values l.pending)
        || (mode == control && (is_some l.controller || any (has_mode control) (values l.pending))))
