-- ===== src/Protocol/CanEnums.antt =====
-- Enumerations of proto/seeed/hal/v1/hal.proto, with the numbers that stand for them in a message. A
-- constructor is the name of its value without the name of the enumeration.
use robot_hal.Prelude.{ℕ, ◌≡◌, ◌↔◌, Option, none, some, arith, eqb, if◌then◌else◌}
use robot_hal.Protocol.Wire.{WireEnum}

pub data CanIdFormatTag : Type 0 where
  can_id_format_unspecified can_id_format_standard can_id_format_extended can_id_format_either :
      CanIdFormatTag

abbrev can_id_format_number : CanIdFormatTag → ℕ
can_id_format_number can_id_format_unspecified = 0
can_id_format_number can_id_format_standard = 1
can_id_format_number can_id_format_extended = 2
can_id_format_number can_id_format_either = 3

unfoldable pub can_id_format_of : ℕ → Option CanIdFormatTag
can_id_format_of n =
    if eqb n 0
    then some can_id_format_unspecified
    else if eqb n 1
    then some can_id_format_standard
    else if eqb n 2
    then some can_id_format_extended
    else if eqb n 3
    then some can_id_format_either
    else none

pub can_id_format_iff :
    (n : ℕ) (a : CanIdFormatTag) → (can_id_format_of n ≡ some a) ↔ (n ≡ can_id_format_number a)
unfolding can_id_format_of
can_id_format_iff n can_id_format_unspecified = ground arith
can_id_format_iff n can_id_format_standard = ground arith
can_id_format_iff n can_id_format_extended = ground arith
can_id_format_iff n can_id_format_either = ground arith

instance abbrev pub can_id_format_wire : WireEnum CanIdFormatTag
can_id_format_wire = record {
  number = can_id_format_number;
  of_number = can_id_format_of;
  of_number_iff = can_id_format_iff;
}

pub data CanFrameKindTag : Type 0 where
  can_frame_kind_unspecified can_frame_kind_classic_data can_frame_kind_classic_remote
        can_frame_kind_fd_data can_frame_kind_error :
      CanFrameKindTag

abbrev can_frame_kind_number : CanFrameKindTag → ℕ
can_frame_kind_number can_frame_kind_unspecified = 0
can_frame_kind_number can_frame_kind_classic_data = 1
can_frame_kind_number can_frame_kind_classic_remote = 2
can_frame_kind_number can_frame_kind_fd_data = 3
can_frame_kind_number can_frame_kind_error = 4

unfoldable pub can_frame_kind_of : ℕ → Option CanFrameKindTag
can_frame_kind_of n =
    if eqb n 0
    then some can_frame_kind_unspecified
    else if eqb n 1
    then some can_frame_kind_classic_data
    else if eqb n 2
    then some can_frame_kind_classic_remote
    else if eqb n 3
    then some can_frame_kind_fd_data
    else if eqb n 4
    then some can_frame_kind_error
    else none

pub can_frame_kind_iff :
    (n : ℕ) (a : CanFrameKindTag) → (can_frame_kind_of n ≡ some a) ↔ (n ≡ can_frame_kind_number a)
unfolding can_frame_kind_of
can_frame_kind_iff n can_frame_kind_unspecified = ground arith
can_frame_kind_iff n can_frame_kind_classic_data = ground arith
can_frame_kind_iff n can_frame_kind_classic_remote = ground arith
can_frame_kind_iff n can_frame_kind_fd_data = ground arith
can_frame_kind_iff n can_frame_kind_error = ground arith

instance abbrev pub can_frame_kind_wire : WireEnum CanFrameKindTag
can_frame_kind_wire = record {
  number = can_frame_kind_number;
  of_number = can_frame_kind_of;
  of_number_iff = can_frame_kind_iff;
}

pub data CanErrorClassTag : Type 0 where
  can_error_class_unspecified can_error_class_tx_timeout can_error_class_lost_arbitration
        can_error_class_controller can_error_class_protocol can_error_class_transceiver
        can_error_class_no_acknowledgement can_error_class_bus_off can_error_class_bus_error
        can_error_class_restarted can_error_class_other :
      CanErrorClassTag

abbrev can_error_class_number : CanErrorClassTag → ℕ
can_error_class_number can_error_class_unspecified = 0
can_error_class_number can_error_class_tx_timeout = 1
can_error_class_number can_error_class_lost_arbitration = 2
can_error_class_number can_error_class_controller = 3
can_error_class_number can_error_class_protocol = 4
can_error_class_number can_error_class_transceiver = 5
can_error_class_number can_error_class_no_acknowledgement = 6
can_error_class_number can_error_class_bus_off = 7
can_error_class_number can_error_class_bus_error = 8
can_error_class_number can_error_class_restarted = 9
can_error_class_number can_error_class_other = 10

unfoldable pub can_error_class_of : ℕ → Option CanErrorClassTag
can_error_class_of n =
    if eqb n 0
    then some can_error_class_unspecified
    else if eqb n 1
    then some can_error_class_tx_timeout
    else if eqb n 2
    then some can_error_class_lost_arbitration
    else if eqb n 3
    then some can_error_class_controller
    else if eqb n 4
    then some can_error_class_protocol
    else if eqb n 5
    then some can_error_class_transceiver
    else if eqb n 6
    then some can_error_class_no_acknowledgement
    else if eqb n 7
    then some can_error_class_bus_off
    else if eqb n 8
    then some can_error_class_bus_error
    else if eqb n 9
    then some can_error_class_restarted
    else if eqb n 10
    then some can_error_class_other
    else none

pub can_error_class_iff :
    (n : ℕ) (a : CanErrorClassTag)
    → (can_error_class_of n ≡ some a) ↔ (n ≡ can_error_class_number a)
unfolding can_error_class_of
can_error_class_iff n can_error_class_unspecified = ground arith
can_error_class_iff n can_error_class_tx_timeout = ground arith
can_error_class_iff n can_error_class_lost_arbitration = ground arith
can_error_class_iff n can_error_class_controller = ground arith
can_error_class_iff n can_error_class_protocol = ground arith
can_error_class_iff n can_error_class_transceiver = ground arith
can_error_class_iff n can_error_class_no_acknowledgement = ground arith
can_error_class_iff n can_error_class_bus_off = ground arith
can_error_class_iff n can_error_class_bus_error = ground arith
can_error_class_iff n can_error_class_restarted = ground arith
can_error_class_iff n can_error_class_other = ground arith

instance abbrev pub can_error_class_wire : WireEnum CanErrorClassTag
can_error_class_wire = record {
  number = can_error_class_number;
  of_number = can_error_class_of;
  of_number_iff = can_error_class_iff;
}

pub data CanTimestampSourceTag : Type 0 where
  can_timestamp_source_unspecified can_timestamp_source_hardware can_timestamp_source_kernel
        can_timestamp_source_host_monotonic :
      CanTimestampSourceTag

abbrev can_timestamp_source_number : CanTimestampSourceTag → ℕ
can_timestamp_source_number can_timestamp_source_unspecified = 0
can_timestamp_source_number can_timestamp_source_hardware = 1
can_timestamp_source_number can_timestamp_source_kernel = 2
can_timestamp_source_number can_timestamp_source_host_monotonic = 3

unfoldable pub can_timestamp_source_of : ℕ → Option CanTimestampSourceTag
can_timestamp_source_of n =
    if eqb n 0
    then some can_timestamp_source_unspecified
    else if eqb n 1
    then some can_timestamp_source_hardware
    else if eqb n 2
    then some can_timestamp_source_kernel
    else if eqb n 3
    then some can_timestamp_source_host_monotonic
    else none

pub can_timestamp_source_iff :
    (n : ℕ) (a : CanTimestampSourceTag)
    → (can_timestamp_source_of n ≡ some a) ↔ (n ≡ can_timestamp_source_number a)
unfolding can_timestamp_source_of
can_timestamp_source_iff n can_timestamp_source_unspecified = ground arith
can_timestamp_source_iff n can_timestamp_source_hardware = ground arith
can_timestamp_source_iff n can_timestamp_source_kernel = ground arith
can_timestamp_source_iff n can_timestamp_source_host_monotonic = ground arith

instance abbrev pub can_timestamp_source_wire : WireEnum CanTimestampSourceTag
can_timestamp_source_wire = record {
  number = can_timestamp_source_number;
  of_number = can_timestamp_source_of;
  of_number_iff = can_timestamp_source_iff;
}

pub data CanModeTag : Type 0 where
  can_mode_unspecified can_mode_classic can_mode_fd : CanModeTag

abbrev can_mode_number : CanModeTag → ℕ
can_mode_number can_mode_unspecified = 0
can_mode_number can_mode_classic = 1
can_mode_number can_mode_fd = 2

unfoldable pub can_mode_of : ℕ → Option CanModeTag
can_mode_of n =
    if eqb n 0
    then some can_mode_unspecified
    else if eqb n 1
    then some can_mode_classic
    else if eqb n 2
    then some can_mode_fd
    else none

pub can_mode_iff : (n : ℕ) (a : CanModeTag) → (can_mode_of n ≡ some a) ↔ (n ≡ can_mode_number a)
unfolding can_mode_of
can_mode_iff n can_mode_unspecified = ground arith
can_mode_iff n can_mode_classic = ground arith
can_mode_iff n can_mode_fd = ground arith

instance abbrev pub can_mode_wire : WireEnum CanModeTag
can_mode_wire = record {
  number = can_mode_number;
  of_number = can_mode_of;
  of_number_iff = can_mode_iff;
}

pub data CanBusStateTag : Type 0 where
  can_bus_state_unspecified can_bus_state_active can_bus_state_warning can_bus_state_passive
        can_bus_state_bus_off can_bus_state_stopped can_bus_state_unknown :
      CanBusStateTag

abbrev can_bus_state_number : CanBusStateTag → ℕ
can_bus_state_number can_bus_state_unspecified = 0
can_bus_state_number can_bus_state_active = 1
can_bus_state_number can_bus_state_warning = 2
can_bus_state_number can_bus_state_passive = 3
can_bus_state_number can_bus_state_bus_off = 4
can_bus_state_number can_bus_state_stopped = 5
can_bus_state_number can_bus_state_unknown = 6

unfoldable pub can_bus_state_of : ℕ → Option CanBusStateTag
can_bus_state_of n =
    if eqb n 0
    then some can_bus_state_unspecified
    else if eqb n 1
    then some can_bus_state_active
    else if eqb n 2
    then some can_bus_state_warning
    else if eqb n 3
    then some can_bus_state_passive
    else if eqb n 4
    then some can_bus_state_bus_off
    else if eqb n 5
    then some can_bus_state_stopped
    else if eqb n 6
    then some can_bus_state_unknown
    else none

pub can_bus_state_iff :
    (n : ℕ) (a : CanBusStateTag) → (can_bus_state_of n ≡ some a) ↔ (n ≡ can_bus_state_number a)
unfolding can_bus_state_of
can_bus_state_iff n can_bus_state_unspecified = ground arith
can_bus_state_iff n can_bus_state_active = ground arith
can_bus_state_iff n can_bus_state_warning = ground arith
can_bus_state_iff n can_bus_state_passive = ground arith
can_bus_state_iff n can_bus_state_bus_off = ground arith
can_bus_state_iff n can_bus_state_stopped = ground arith
can_bus_state_iff n can_bus_state_unknown = ground arith

instance abbrev pub can_bus_state_wire : WireEnum CanBusStateTag
can_bus_state_wire = record {
  number = can_bus_state_number;
  of_number = can_bus_state_of;
  of_number_iff = can_bus_state_iff;
}
