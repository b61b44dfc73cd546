-- ===== src/Protocol/CanFrames.antt =====
-- crates/robot-hal-protocol/src/can_conversion.rs: identifiers, frames and timestamps, with their
-- messages of proto/seeed/hal/v1/hal.proto.
pub mod Inverse
use robot_hal.Prelude.{
  ℕ, String, Bool, false, not, ◌||◌, Option, none, some, List, [], map, eqb, is_some,
}
use robot_hal.Core.Error.{HalResult, ok, err, ◌>>=◌, ◌>>◌, fail_if}
use robot_hal.Can.Frame.{
  CanId, standard, extended, standard_id, extended_id, CanErrorClass, tx_timeout, lost_arbitration,
  controller, protocol, transceiver, no_acknowledgement, bus_off, bus_error, restarted, other,
  CanFrame, classic_data, classic_remote, fd_data, error, is_nil, new_classic_data,
  new_classic_remote, new_fd_data, new_error_frame, CanTimestampSource, hardware, kernel,
  host_monotonic, CanTimestamp, new_timestamp, ReceivedCanFrame,
}
use robot_hal.Protocol.Wire.{
  invalid, required, required_enum, or_error, as_i32, transpose, collect_all, u8_of, u16_of,
  encode_option,
}
use robot_hal.Protocol.CanEnums.{
  CanErrorClassTag, CanFrameKindTag, CanIdFormatTag, CanTimestampSourceTag,
  can_error_class_bus_error, can_error_class_bus_off, can_error_class_controller,
  can_error_class_lost_arbitration, can_error_class_no_acknowledgement, can_error_class_other,
  can_error_class_protocol, can_error_class_restarted, can_error_class_transceiver,
  can_error_class_tx_timeout, can_error_class_unspecified, can_frame_kind_classic_data,
  can_frame_kind_classic_remote, can_frame_kind_error, can_frame_kind_fd_data,
  can_frame_kind_unspecified, can_id_format_either, can_id_format_extended, can_id_format_standard,
  can_id_format_unspecified, can_timestamp_source_hardware, can_timestamp_source_host_monotonic,
  can_timestamp_source_kernel, can_timestamp_source_unspecified, can_error_class_wire,
  can_frame_kind_wire, can_id_format_wire, can_timestamp_source_wire,
}

pub record CanIdMessage : Type 0 where
  pub value : ℕ
  pub format : ℕ

-- The arms of the match on the format in `CanId::try_from`.
abbrev id_of_format : ℕ → CanIdFormatTag → HalResult CanId
id_of_format value can_id_format_standard = do
  id ← u16_of value (invalid "can_id.value" "exceeds the standard ID range")
  or_error (standard_id id) (invalid "can_id.value" "exceeds the standard ID range")
id_of_format value can_id_format_extended =
    or_error (extended_id value) (invalid "can_id.value" "exceeds the extended ID range")
id_of_format value can_id_format_either =
    err (invalid "can_id.format" "must be standard or extended for a frame")
id_of_format value can_id_format_unspecified = err (invalid "can_id.format" "is required")

-- `CanId::try_from`
unfoldable pub id_from_proto : CanIdMessage → HalResult CanId
unfolding required_enum standard_id extended_id
id_from_proto m = do format ← required_enum m.format "can_id.format"; id_of_format m.value format

-- `From<&CanId>`
abbrev pub id_to_proto : CanId → CanIdMessage
id_to_proto (standard v) = record { value = v; format = as_i32 can_id_format_standard }
id_to_proto (extended v) = record { value = v; format = as_i32 can_id_format_extended }

abbrev pub error_class_of_tag : CanErrorClassTag → HalResult CanErrorClass
error_class_of_tag can_error_class_tx_timeout = ok tx_timeout
error_class_of_tag can_error_class_lost_arbitration = ok lost_arbitration
error_class_of_tag can_error_class_controller = ok controller
error_class_of_tag can_error_class_protocol = ok protocol
error_class_of_tag can_error_class_transceiver = ok transceiver
error_class_of_tag can_error_class_no_acknowledgement = ok no_acknowledgement
error_class_of_tag can_error_class_bus_off = ok bus_off
error_class_of_tag can_error_class_bus_error = ok bus_error
error_class_of_tag can_error_class_restarted = ok restarted
error_class_of_tag can_error_class_other = ok other
error_class_of_tag can_error_class_unspecified =
    err (invalid "can_frame.error_classes" "contains an unspecified value")

-- `error_class_from_proto`
unfoldable pub error_class_from_proto : ℕ → HalResult CanErrorClass
unfolding required_enum
error_class_from_proto value = do
  class ← required_enum value "can_frame.error_classes"
  error_class_of_tag class

-- `error_class_to_proto`
abbrev pub error_class_to_proto : CanErrorClass → CanErrorClassTag
error_class_to_proto tx_timeout = can_error_class_tx_timeout
error_class_to_proto lost_arbitration = can_error_class_lost_arbitration
error_class_to_proto controller = can_error_class_controller
error_class_to_proto protocol = can_error_class_protocol
error_class_to_proto transceiver = can_error_class_transceiver
error_class_to_proto no_acknowledgement = can_error_class_no_acknowledgement
error_class_to_proto bus_off = can_error_class_bus_off
error_class_to_proto bus_error = can_error_class_bus_error
error_class_to_proto restarted = can_error_class_restarted
error_class_to_proto other = can_error_class_other

pub record CanFrameMessage : Type 0 where
  pub id : Option CanIdMessage
  pub kind : ℕ
  pub payload : List ℕ
  pub remote_dlc : ℕ
  pub bitrate_switch : Bool
  pub error_state_indicator : Bool
  pub error_classes : List ℕ

-- The arms of the match on the kind in `CanFrame::try_from`.
unfoldable pub classic_data_from : CanFrameMessage → HalResult CanFrame
unfolding new_classic_data required
classic_data_from m = do
  fail_if
      (not (eqb m.remote_dlc 0)
        || (m.bitrate_switch || (m.error_state_indicator || not (is_nil m.error_classes))))
      (invalid "can_frame" "has fields incompatible with classic data")
  id_message ← required m.id "can_frame.id"
  id ← id_from_proto id_message
  or_error (new_classic_data id m.payload)
      (invalid "can_frame.data" "exceeds the classic payload bound")

unfoldable pub classic_remote_from : CanFrameMessage → HalResult CanFrame
unfolding new_classic_remote required
classic_remote_from m = do
  fail_if
      (not (is_nil m.payload)
        || (m.bitrate_switch || (m.error_state_indicator || not (is_nil m.error_classes))))
      (invalid "can_frame" "has fields incompatible with a classic remote frame")
  id_message ← required m.id "can_frame.id"
  id ← id_from_proto id_message
  dlc ← u8_of m.remote_dlc (invalid "can_frame.remote_dlc" "exceeds the classic bound")
  or_error (new_classic_remote id dlc) (invalid "can_frame.remote_dlc" "exceeds the classic bound")

unfoldable pub fd_data_from : CanFrameMessage → HalResult CanFrame
unfolding new_fd_data required
fd_data_from m = do
  fail_if (not (eqb m.remote_dlc 0) || not (is_nil m.error_classes))
      (invalid "can_frame" "has fields incompatible with FD data")
  id_message ← required m.id "can_frame.id"
  id ← id_from_proto id_message
  or_error (new_fd_data id m.payload m.bitrate_switch m.error_state_indicator)
      (invalid "can_frame.data" "has an invalid FD payload length")

unfoldable pub error_frame_from : CanFrameMessage → HalResult CanFrame
unfolding new_error_frame
error_frame_from m = do
  fail_if
      (is_some m.id || (not (eqb m.remote_dlc 0) || (m.bitrate_switch || m.error_state_indicator)))
      (invalid "can_frame" "has fields incompatible with an error frame")
  classes ← collect_all error_class_from_proto m.error_classes
  or_error (new_error_frame classes m.payload)
      (invalid "can_frame.error_classes/data" "does not form a valid error frame")

abbrev frame_of_kind : CanFrameMessage → CanFrameKindTag → HalResult CanFrame
frame_of_kind m can_frame_kind_classic_data = classic_data_from m
frame_of_kind m can_frame_kind_classic_remote = classic_remote_from m
frame_of_kind m can_frame_kind_fd_data = fd_data_from m
frame_of_kind m can_frame_kind_error = error_frame_from m
frame_of_kind m can_frame_kind_unspecified = err (invalid "can_frame.kind" "is required")

-- `CanFrame::try_from`
unfoldable pub frame_from_proto : CanFrameMessage → HalResult CanFrame
unfolding required_enum
frame_from_proto m = do kind ← required_enum m.kind "can_frame.kind"; frame_of_kind m kind

-- `Default::default()`
abbrev default_frame : CanFrameMessage
default_frame = record {
  id = none;
  kind = as_i32 can_frame_kind_unspecified;
  payload = [];
  remote_dlc = 0;
  bitrate_switch = false;
  error_state_indicator = false;
  error_classes = [];
}

-- `From<&CanFrame>`
abbrev pub frame_to_proto : CanFrame → CanFrameMessage
frame_to_proto (classic_data id payload) = record default_frame {
  id = some (id_to_proto id);
  kind = as_i32 can_frame_kind_classic_data;
  payload = payload;
}
frame_to_proto (classic_remote id dlc) = record default_frame {
  id = some (id_to_proto id);
  kind = as_i32 can_frame_kind_classic_remote;
  remote_dlc = dlc;
}
frame_to_proto (fd_data id payload brs esi) = record default_frame {
  id = some (id_to_proto id);
  kind = as_i32 can_frame_kind_fd_data;
  payload = payload;
  bitrate_switch = brs;
  error_state_indicator = esi;
}
frame_to_proto (error classes payload) = record default_frame {
  kind = as_i32 can_frame_kind_error;
  payload = payload;
  error_classes = map (λ c. as_i32 (error_class_to_proto c)) classes;
}

pub record CanTimestampMessage : Type 0 where
  pub timestamp_ns : ℕ
  pub source : ℕ
  pub clock_domain : String

abbrev pub timestamp_source_of_tag : CanTimestampSourceTag → HalResult CanTimestampSource
timestamp_source_of_tag can_timestamp_source_hardware = ok hardware
timestamp_source_of_tag can_timestamp_source_kernel = ok kernel
timestamp_source_of_tag can_timestamp_source_host_monotonic = ok host_monotonic
timestamp_source_of_tag can_timestamp_source_unspecified =
    err (invalid "can_timestamp.source" "is required")

-- `CanTimestamp::try_from`
unfoldable pub timestamp_from_proto : CanTimestampMessage → HalResult CanTimestamp
unfolding required_enum new_timestamp
timestamp_from_proto m = do
  source ← required_enum m.source "can_timestamp.source" >>= timestamp_source_of_tag
  or_error (new_timestamp m.timestamp_ns source m.clock_domain)
      (invalid "can_timestamp.clock_domain" "is invalid")

abbrev pub timestamp_source_to_proto : CanTimestampSource → CanTimestampSourceTag
timestamp_source_to_proto hardware = can_timestamp_source_hardware
timestamp_source_to_proto kernel = can_timestamp_source_kernel
timestamp_source_to_proto host_monotonic = can_timestamp_source_host_monotonic

-- `From<&CanTimestamp>`
abbrev pub timestamp_to_proto : CanTimestamp → CanTimestampMessage
timestamp_to_proto t = record {
  timestamp_ns = t.timestamp_ns;
  source = as_i32 (timestamp_source_to_proto t.source);
  clock_domain = t.clock_domain;
}

pub record ReceivedCanFrameMessage : Type 0 where
  pub frame : Option CanFrameMessage
  pub timestamp : Option CanTimestampMessage

-- `ReceivedCanFrame::try_from`
unfoldable pub received_from_proto : ReceivedCanFrameMessage → HalResult ReceivedCanFrame
unfolding required
received_from_proto m = do
  frame_message ← required m.frame "received_can_frame.frame"
  frame ← frame_from_proto frame_message
  timestamp ← transpose timestamp_from_proto m.timestamp
  ok (record { frame = frame; timestamp = timestamp })

-- `From<&ReceivedCanFrame>`
abbrev pub received_to_proto : ReceivedCanFrame → ReceivedCanFrameMessage
received_to_proto r = record {
  frame = some (frame_to_proto r.frame);
  timestamp = encode_option timestamp_to_proto r.timestamp;
}
