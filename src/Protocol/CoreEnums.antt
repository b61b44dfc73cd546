-- ===== src/Protocol/CoreEnums.antt =====
-- Enumerations of proto/seeed/hal/v1/hal.proto, with the numbers that stand for them in a message. A
-- constructor is the name of its value without the name of the enumeration.
use robot_hal.Prelude.{ℕ, ◌≡◌, ◌↔◌, Option, none, some, arith, eqb, if◌then◌else◌}
use robot_hal.Protocol.Wire.{WireEnum}

pub data LeaseModeTag : Type 0 where
  lease_mode_unspecified lease_mode_observe lease_mode_control lease_mode_maintenance : LeaseModeTag

abbrev lease_mode_number : LeaseModeTag → ℕ
lease_mode_number lease_mode_unspecified = 0
lease_mode_number lease_mode_observe = 1
lease_mode_number lease_mode_control = 2
lease_mode_number lease_mode_maintenance = 3

unfoldable pub lease_mode_of : ℕ → Option LeaseModeTag
lease_mode_of n =
    if eqb n 0
    then some lease_mode_unspecified
    else if eqb n 1
    then some lease_mode_observe
    else if eqb n 2
    then some lease_mode_control
    else if eqb n 3
    then some lease_mode_maintenance
    else none

pub lease_mode_iff :
    (n : ℕ) (a : LeaseModeTag) → (lease_mode_of n ≡ some a) ↔ (n ≡ lease_mode_number a)
unfolding lease_mode_of
lease_mode_iff n lease_mode_unspecified = ground arith
lease_mode_iff n lease_mode_observe = ground arith
lease_mode_iff n lease_mode_control = ground arith
lease_mode_iff n lease_mode_maintenance = ground arith

instance abbrev pub lease_mode_wire : WireEnum LeaseModeTag
lease_mode_wire = record {
  number = lease_mode_number;
  of_number = lease_mode_of;
  of_number_iff = lease_mode_iff;
}

pub data IdentityQualityTag : Type 0 where
  identity_quality_unspecified identity_quality_weak identity_quality_medium
        identity_quality_strong :
      IdentityQualityTag

abbrev identity_quality_number : IdentityQualityTag → ℕ
identity_quality_number identity_quality_unspecified = 0
identity_quality_number identity_quality_weak = 1
identity_quality_number identity_quality_medium = 2
identity_quality_number identity_quality_strong = 3

unfoldable pub identity_quality_of : ℕ → Option IdentityQualityTag
identity_quality_of n =
    if eqb n 0
    then some identity_quality_unspecified
    else if eqb n 1
    then some identity_quality_weak
    else if eqb n 2
    then some identity_quality_medium
    else if eqb n 3
    then some identity_quality_strong
    else none

pub identity_quality_iff :
    (n : ℕ) (a : IdentityQualityTag)
    → (identity_quality_of n ≡ some a) ↔ (n ≡ identity_quality_number a)
unfolding identity_quality_of
identity_quality_iff n identity_quality_unspecified = ground arith
identity_quality_iff n identity_quality_weak = ground arith
identity_quality_iff n identity_quality_medium = ground arith
identity_quality_iff n identity_quality_strong = ground arith

instance abbrev pub identity_quality_wire : WireEnum IdentityQualityTag
identity_quality_wire = record {
  number = identity_quality_number;
  of_number = identity_quality_of;
  of_number_iff = identity_quality_iff;
}

pub data TransportKindTag : Type 0 where
  transport_kind_unspecified transport_kind_serial transport_kind_can transport_kind_usb
        transport_kind_gpio transport_kind_camera :
      TransportKindTag

abbrev transport_kind_number : TransportKindTag → ℕ
transport_kind_number transport_kind_unspecified = 0
transport_kind_number transport_kind_serial = 1
transport_kind_number transport_kind_can = 2
transport_kind_number transport_kind_usb = 3
transport_kind_number transport_kind_gpio = 4
transport_kind_number transport_kind_camera = 5

unfoldable pub transport_kind_of : ℕ → Option TransportKindTag
transport_kind_of n =
    if eqb n 0
    then some transport_kind_unspecified
    else if eqb n 1
    then some transport_kind_serial
    else if eqb n 2
    then some transport_kind_can
    else if eqb n 3
    then some transport_kind_usb
    else if eqb n 4
    then some transport_kind_gpio
    else if eqb n 5
    then some transport_kind_camera
    else none

pub transport_kind_iff :
    (n : ℕ) (a : TransportKindTag) → (transport_kind_of n ≡ some a) ↔ (n ≡ transport_kind_number a)
unfolding transport_kind_of
transport_kind_iff n transport_kind_unspecified = ground arith
transport_kind_iff n transport_kind_serial = ground arith
transport_kind_iff n transport_kind_can = ground arith
transport_kind_iff n transport_kind_usb = ground arith
transport_kind_iff n transport_kind_gpio = ground arith
transport_kind_iff n transport_kind_camera = ground arith

instance abbrev pub transport_kind_wire : WireEnum TransportKindTag
transport_kind_wire = record {
  number = transport_kind_number;
  of_number = transport_kind_of;
  of_number_iff = transport_kind_iff;
}

pub data ErrorCategoryTag : Type 0 where
  error_category_unspecified error_category_invalid_argument error_category_not_found
        error_category_conflict error_category_unavailable error_category_internal :
      ErrorCategoryTag

abbrev error_category_number : ErrorCategoryTag → ℕ
error_category_number error_category_unspecified = 0
error_category_number error_category_invalid_argument = 1
error_category_number error_category_not_found = 2
error_category_number error_category_conflict = 3
error_category_number error_category_unavailable = 4
error_category_number error_category_internal = 5

unfoldable pub error_category_of : ℕ → Option ErrorCategoryTag
error_category_of n =
    if eqb n 0
    then some error_category_unspecified
    else if eqb n 1
    then some error_category_invalid_argument
    else if eqb n 2
    then some error_category_not_found
    else if eqb n 3
    then some error_category_conflict
    else if eqb n 4
    then some error_category_unavailable
    else if eqb n 5
    then some error_category_internal
    else none

pub error_category_iff :
    (n : ℕ) (a : ErrorCategoryTag) → (error_category_of n ≡ some a) ↔ (n ≡ error_category_number a)
unfolding error_category_of
error_category_iff n error_category_unspecified = ground arith
error_category_iff n error_category_invalid_argument = ground arith
error_category_iff n error_category_not_found = ground arith
error_category_iff n error_category_conflict = ground arith
error_category_iff n error_category_unavailable = ground arith
error_category_iff n error_category_internal = ground arith

instance abbrev pub error_category_wire : WireEnum ErrorCategoryTag
error_category_wire = record {
  number = error_category_number;
  of_number = error_category_of;
  of_number_iff = error_category_iff;
}
