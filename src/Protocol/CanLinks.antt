-- ===== src/Protocol/CanLinks.antt =====
-- crates/robot-hal-protocol/src/can_conversion.rs: bit timings, link expectations, configurations,
-- filters and the status of a bus, with their messages of proto/seeed/hal/v1/hal.proto.
pub mod Inverse
pub mod Filters
use robot_hal.Prelude.{ℕ, String, Bool, Option, some, List, map, length, ltb}
use robot_hal.Core.Error.{HalResult, ok, err, ◌>>=◌, ◌>>◌, fail_if}
use robot_hal.Protocol.CanEnums.{
  CanBusStateTag, CanIdFormatTag, CanModeTag, can_bus_state_active, can_bus_state_bus_off,
  can_bus_state_passive, can_bus_state_stopped, can_bus_state_unknown, can_bus_state_unspecified,
  can_bus_state_warning, can_id_format_either, can_id_format_extended, can_id_format_standard,
  can_id_format_unspecified, can_mode_classic, can_mode_fd, can_mode_unspecified,
  can_bus_state_wire, can_id_format_wire, can_mode_wire,
}
use robot_hal.Protocol.Wire.{
  as_i32, collect_all, encode_option, invalid, or_error, required, required_enum, transpose, u16_of,
}
use robot_hal.Can.Config.{
  CanBitTiming, CanConfigureConfig, CanLinkExpectation, CanMode, CanOpenConfig, attach, classic,
  configure, fd, new_bit_timing, new_link_expectation, new_with_restart,
}
use robot_hal.Can.Filter.{
  CanFilter, CanFilterSet, CanFrameClasses, CanIdFormat, either, max_can_filters, new_filter,
  new_filter_set, only_extended, only_standard,
}
use robot_hal.Can.Adapter.{
  CanActiveConfig, CanBusState, CanBusStatus, bus_active, bus_is_off, bus_passive, bus_stopped,
  bus_unknown, bus_warning, new_active_config,
}

abbrev pub mode_of_tag : String → CanModeTag → HalResult CanMode
mode_of_tag field can_mode_classic = ok classic
mode_of_tag field can_mode_fd = ok fd
mode_of_tag field can_mode_unspecified = err (invalid field "is required")

-- `mode_from_proto`
unfoldable pub mode_from_proto : String → ℕ → HalResult CanMode
unfolding required_enum
mode_from_proto field value = required_enum value field >>= mode_of_tag field

-- `mode_to_proto`
abbrev pub mode_to_proto : CanMode → CanModeTag
mode_to_proto classic = can_mode_classic
mode_to_proto fd = can_mode_fd

pub record CanBitTimingMessage : Type 0 where
  pub bitrate : ℕ
  pub sample_point_permill : Option ℕ
  pub sjw : Option ℕ

-- `CanBitTiming::try_from`
unfoldable pub bit_timing_from_proto : CanBitTimingMessage → HalResult CanBitTiming
unfolding new_bit_timing
bit_timing_from_proto m = do
  sample_point ←
      transpose (λ v. u16_of v (invalid "can_bit_timing.sample_point_permill" "is out of range"))
        m.sample_point_permill
  sjw ← transpose (λ v. u16_of v (invalid "can_bit_timing.sjw" "is out of range")) m.sjw
  or_error (new_bit_timing m.bitrate sample_point sjw)
      (invalid "can_bit_timing" "contains invalid timing values")

-- `From<&CanBitTiming>`
abbrev pub bit_timing_to_proto : CanBitTiming → CanBitTimingMessage
bit_timing_to_proto t = record {
  bitrate = t.bitrate;
  sample_point_permill = t.sample_point_permill;
  sjw = t.sjw;
}

pub record CanLinkExpectationMessage : Type 0 where
  pub mode : Option ℕ
  pub nominal_bitrate : Option ℕ
  pub data_bitrate : Option ℕ
  pub listen_only : Option Bool
  pub loopback : Option Bool

-- `CanLinkExpectation::try_from`
unfoldable pub expectation_from_proto : CanLinkExpectationMessage → HalResult CanLinkExpectation
unfolding new_link_expectation
expectation_from_proto m = do
  mode ← transpose (mode_from_proto "can_link_expectation.mode") m.mode
  or_error (new_link_expectation mode m.nominal_bitrate m.data_bitrate m.listen_only m.loopback)
      (invalid "can_link_expectation" "contains inconsistent expectations")

-- `From<&CanLinkExpectation>`
abbrev pub expectation_to_proto : CanLinkExpectation → CanLinkExpectationMessage
expectation_to_proto e = record {
  mode = encode_option (λ m. as_i32 (mode_to_proto m)) e.mode;
  nominal_bitrate = e.nominal_bitrate;
  data_bitrate = e.data_bitrate;
  listen_only = e.listen_only;
  loopback = e.loopback;
}

pub record CanConfigureConfigMessage : Type 0 where
  pub mode : ℕ
  pub nominal : Option CanBitTimingMessage
  pub data_timing : Option CanBitTimingMessage
  pub listen_only : Bool
  pub loopback : Bool
  pub restart_ms : Option ℕ

-- `CanConfigureConfig::try_from`
unfoldable pub configuration_from_proto : CanConfigureConfigMessage → HalResult CanConfigureConfig
unfolding required new_with_restart
configuration_from_proto m = do
  mode ← mode_from_proto "can_configure_config.mode" m.mode
  nominal_message ← required m.nominal "can_configure_config.nominal"
  nominal ← bit_timing_from_proto nominal_message
  data_timing ← transpose bit_timing_from_proto m.data_timing
  or_error (new_with_restart mode nominal data_timing m.listen_only m.loopback m.restart_ms)
      (invalid "can_configure_config" "is inconsistent")

-- `From<&CanConfigureConfig>`
abbrev pub configuration_to_proto : CanConfigureConfig → CanConfigureConfigMessage
configuration_to_proto c = record {
  mode = as_i32 (mode_to_proto c.mode);
  nominal = some (bit_timing_to_proto c.nominal);
  data_timing = encode_option bit_timing_to_proto c.data_timing;
  listen_only = c.listen_only;
  loopback = c.loopback;
  restart_ms = c.restart_ms;
}

-- The `oneof` of `CanOpenConfig`; an absent one is `none`.
pub data CanOpenConfigMessage : Type 0 where
  attach_message : CanLinkExpectationMessage → CanOpenConfigMessage
  configure_message : CanConfigureConfigMessage → CanOpenConfigMessage

abbrev open_config_of : CanOpenConfigMessage → HalResult CanOpenConfig
open_config_of (attach_message m) = do e ← expectation_from_proto m; ok (attach e)
open_config_of (configure_message m) = do c ← configuration_from_proto m; ok (configure c)

-- `CanOpenConfig::try_from`
unfoldable pub open_config_from_proto : Option CanOpenConfigMessage → HalResult CanOpenConfig
unfolding required
open_config_from_proto m = required m "can_open_config.config" >>= open_config_of

-- `From<&CanOpenConfig>`
abbrev pub open_config_to_proto : CanOpenConfig → Option CanOpenConfigMessage
open_config_to_proto (attach e) = some (attach_message (expectation_to_proto e))
open_config_to_proto (configure c) = some (configure_message (configuration_to_proto c))

pub record CanActiveConfigMessage : Type 0 where
  pub mode : ℕ
  pub nominal : Option CanBitTimingMessage
  pub data_timing : Option CanBitTimingMessage
  pub listen_only : Bool
  pub loopback : Bool
  pub clock_domain : String

-- `CanActiveConfig::try_from`
unfoldable pub active_config_from_proto : CanActiveConfigMessage → HalResult CanActiveConfig
unfolding required new_active_config
active_config_from_proto m = do
  mode ← mode_from_proto "can_active_config.mode" m.mode
  nominal_message ← required m.nominal "can_active_config.nominal"
  nominal ← bit_timing_from_proto nominal_message
  data_timing ← transpose bit_timing_from_proto m.data_timing
  or_error (new_active_config mode nominal data_timing m.listen_only m.loopback m.clock_domain)
      (invalid "can_active_config" "is inconsistent or has an invalid domain")

-- `From<&CanActiveConfig>`
abbrev pub active_config_to_proto : CanActiveConfig → CanActiveConfigMessage
active_config_to_proto c = record {
  mode = as_i32 (mode_to_proto c.mode);
  nominal = some (bit_timing_to_proto c.nominal);
  data_timing = encode_option bit_timing_to_proto c.data_timing;
  listen_only = c.listen_only;
  loopback = c.loopback;
  clock_domain = c.clock_domain;
}

-- `CanFrameClasses` is the same three flags on both sides.
pub record CanFilterMessage : Type 0 where
  pub id : ℕ
  pub mask : ℕ
  pub format : ℕ
  pub classes : Option CanFrameClasses

abbrev id_format_of_tag : CanIdFormatTag → HalResult CanIdFormat
id_format_of_tag can_id_format_standard = ok only_standard
id_format_of_tag can_id_format_extended = ok only_extended
id_format_of_tag can_id_format_either = ok either
id_format_of_tag can_id_format_unspecified = err (invalid "can_filter.format" "is required")

-- `CanFilter::try_from`
unfoldable pub filter_from_proto : CanFilterMessage → HalResult CanFilter
unfolding required_enum required new_filter
filter_from_proto m = do
  format ← required_enum m.format "can_filter.format" >>= id_format_of_tag
  classes ← required m.classes "can_filter.classes"
  or_error (new_filter m.id m.mask format classes)
      (invalid "can_filter" "contains invalid bounds or frame classes")

abbrev id_format_to_proto : CanIdFormat → CanIdFormatTag
id_format_to_proto only_standard = can_id_format_standard
id_format_to_proto only_extended = can_id_format_extended
id_format_to_proto either = can_id_format_either

-- `From<&CanFilter>`
abbrev pub filter_to_proto : CanFilter → CanFilterMessage
filter_to_proto f = record {
  id = f.id;
  mask = f.mask;
  format = as_i32 (id_format_to_proto f.format);
  classes = some f.classes;
}

-- `CanFilterSet::try_from`
unfoldable pub filter_set_from_proto : List CanFilterMessage → HalResult CanFilterSet
unfolding new_filter_set
filter_set_from_proto filters = do
  fail_if (ltb max_can_filters (length filters))
      (invalid "can_filter_set.filters" "exceeds the 64-filter bound")
  accepted ← collect_all filter_from_proto filters
  or_error (new_filter_set accepted) (invalid "can_filter_set.filters" "is invalid")

-- `From<&CanFilterSet>`
abbrev pub filter_set_to_proto : CanFilterSet → List CanFilterMessage
filter_set_to_proto set = map filter_to_proto set

pub record CanBusStatusMessage : Type 0 where
  pub state : ℕ
  pub tx_error_counter : Option ℕ
  pub rx_error_counter : Option ℕ

abbrev bus_state_of_tag : CanBusStateTag → HalResult CanBusState
bus_state_of_tag can_bus_state_active = ok bus_active
bus_state_of_tag can_bus_state_warning = ok bus_warning
bus_state_of_tag can_bus_state_passive = ok bus_passive
bus_state_of_tag can_bus_state_bus_off = ok bus_is_off
bus_state_of_tag can_bus_state_stopped = ok bus_stopped
bus_state_of_tag can_bus_state_unknown = ok bus_unknown
bus_state_of_tag can_bus_state_unspecified = err (invalid "can_bus_status.state" "is required")

-- `CanBusStatus::try_from`
unfoldable pub bus_status_from_proto : CanBusStatusMessage → HalResult CanBusStatus
unfolding required_enum
bus_status_from_proto m = do
  state ← required_enum m.state "can_bus_status.state" >>= bus_state_of_tag
  ok (record {
    state = state;
    tx_error_counter = m.tx_error_counter;
    rx_error_counter = m.rx_error_counter;
  })

abbrev bus_state_to_proto : CanBusState → CanBusStateTag
bus_state_to_proto bus_active = can_bus_state_active
bus_state_to_proto bus_warning = can_bus_state_warning
bus_state_to_proto bus_passive = can_bus_state_passive
bus_state_to_proto bus_is_off = can_bus_state_bus_off
bus_state_to_proto bus_stopped = can_bus_state_stopped
bus_state_to_proto bus_unknown = can_bus_state_unknown

-- `From<&CanBusStatus>`
abbrev pub bus_status_to_proto : CanBusStatus → CanBusStatusMessage
bus_status_to_proto s = record {
  state = as_i32 (bus_state_to_proto s.state);
  tx_error_counter = s.tx_error_counter;
  rx_error_counter = s.rx_error_counter;
}
