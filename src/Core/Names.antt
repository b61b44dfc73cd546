-- ===== src/Core/Names.antt =====
-- The newtypes over `String` of crates/robot-hal-core/src/{error,identity,lease,capability}.rs, the
-- closed enumerations, and the equality that the source derives for them.
use robot_hal.Prelude.{
  ℕ, String, ◌≡◌, ◌↔◌, Bool, true, arith, Equality, ◌==◌, string_eq, nat_eq, eqb, eq_iff,
}

pub record ErrorName : Type 0 where
  pub as_str : String

pub record OperationName : Type 0 where
  pub as_str : String

pub record ResourceId : Type 0 where
  pub as_str : String

pub record Endpoint : Type 0 where
  pub as_str : String

pub record LeaseId : Type 0 where
  pub as_str : String

pub record OwnerId : Type 0 where
  pub as_str : String

pub record SessionId : Type 0 where
  pub as_str : String

pub record CapabilityId : Type 0 where
  pub as_str : String

pub data ErrorCategory : Type 0 where
  invalid_argument not_found conflict unavailable internal : ErrorCategory

pub data LeaseMode : Type 0 where
  observe control maintenance : LeaseMode

pub data IdentityQuality : Type 0 where
  weak medium strong : IdentityQuality

pub data TransportKind : Type 0 where
  serial can usb gpio camera : TransportKind

unfoldable pub eq_resource_id : ResourceId → ResourceId → Bool
eq_resource_id a b = a.as_str == b.as_str

pub eq_resource_id_iff : (a b : ResourceId) → (eq_resource_id a b ≡ true) ↔ (a ≡ b)
unfolding eq_resource_id
eq_resource_id_iff a b = ground (arith, eq_iff a.as_str b.as_str)

unfoldable pub eq_lease_id : LeaseId → LeaseId → Bool
eq_lease_id a b = a.as_str == b.as_str

pub eq_lease_id_iff : (a b : LeaseId) → (eq_lease_id a b ≡ true) ↔ (a ≡ b)
unfolding eq_lease_id
eq_lease_id_iff a b = ground (arith, eq_iff a.as_str b.as_str)

unfoldable pub eq_owner_id : OwnerId → OwnerId → Bool
eq_owner_id a b = a.as_str == b.as_str

pub eq_owner_id_iff : (a b : OwnerId) → (eq_owner_id a b ≡ true) ↔ (a ≡ b)
unfolding eq_owner_id
eq_owner_id_iff a b = ground (arith, eq_iff a.as_str b.as_str)

unfoldable pub eq_session_id : SessionId → SessionId → Bool
eq_session_id a b = a.as_str == b.as_str

pub eq_session_id_iff : (a b : SessionId) → (eq_session_id a b ≡ true) ↔ (a ≡ b)
unfolding eq_session_id
eq_session_id_iff a b = ground (arith, eq_iff a.as_str b.as_str)

unfoldable pub eq_capability_id : CapabilityId → CapabilityId → Bool
eq_capability_id a b = a.as_str == b.as_str

pub eq_capability_id_iff : (a b : CapabilityId) → (eq_capability_id a b ≡ true) ↔ (a ≡ b)
unfolding eq_capability_id
eq_capability_id_iff a b = ground (arith, eq_iff a.as_str b.as_str)

abbrev mode_tag : LeaseMode → ℕ
mode_tag observe = 0
mode_tag control = 1
mode_tag maintenance = 2

abbrev eq_lease_mode : LeaseMode → LeaseMode → Bool
eq_lease_mode a b = eqb (mode_tag a) (mode_tag b)

pub eq_lease_mode_iff : (a b : LeaseMode) → (eq_lease_mode a b ≡ true) ↔ (a ≡ b)
eq_lease_mode_iff a b = ground arith

abbrev transport_tag : TransportKind → ℕ
transport_tag serial = 0
transport_tag can = 1
transport_tag usb = 2
transport_tag gpio = 3
transport_tag camera = 4

abbrev eq_transport_kind : TransportKind → TransportKind → Bool
eq_transport_kind a b = eqb (transport_tag a) (transport_tag b)

pub eq_transport_kind_iff : (a b : TransportKind) → (eq_transport_kind a b ≡ true) ↔ (a ≡ b)
eq_transport_kind_iff a b = ground arith

instance abbrev pub resource_id_eq : Equality ResourceId
resource_id_eq = record { same = eq_resource_id; same_iff = eq_resource_id_iff }

instance abbrev pub lease_id_eq : Equality LeaseId
lease_id_eq = record { same = eq_lease_id; same_iff = eq_lease_id_iff }

instance abbrev pub owner_id_eq : Equality OwnerId
owner_id_eq = record { same = eq_owner_id; same_iff = eq_owner_id_iff }

instance abbrev pub session_id_eq : Equality SessionId
session_id_eq = record { same = eq_session_id; same_iff = eq_session_id_iff }

instance abbrev pub capability_id_eq : Equality CapabilityId
capability_id_eq = record { same = eq_capability_id; same_iff = eq_capability_id_iff }

instance abbrev pub lease_mode_eq : Equality LeaseMode
lease_mode_eq = record { same = eq_lease_mode; same_iff = eq_lease_mode_iff }

instance abbrev pub transport_kind_eq : Equality TransportKind
transport_kind_eq = record { same = eq_transport_kind; same_iff = eq_transport_kind_iff }
