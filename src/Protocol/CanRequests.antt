-- ===== src/Protocol/CanRequests.antt =====
-- crates/robot-hal-protocol/src/can_conversion.rs: the requests and answers of the CAN service. A
-- `usize` has 64 bits, so `usize::try_from` of a `u32` succeeds, and a `Duration` is its number of
-- milliseconds.
pub mod Inverse
use robot_hal.Prelude.{
  ℕ, String, Bool, not, ◌&&◌, Option, none, some, List, length, ltb, leb, eqb, ◌==◌, if◌then◌else◌,
}
use robot_hal.Core.Names.{lease_mode_eq, transport_kind_eq, LeaseMode, SessionId, can}
use robot_hal.Core.Error.{HalError, HalResult, ok, err, ◌>>=◌, ◌>>◌, fail_if}
use robot_hal.Protocol.Wire.{as_i32, collect_all, invalid, required, required_enum}
use robot_hal.Protocol.CanFrames.{
  CanFrameMessage, ReceivedCanFrameMessage, frame_from_proto, received_from_proto,
}
use robot_hal.Protocol.CanLinks.{
  CanFilterMessage, CanOpenConfigMessage, filter_set_from_proto, filter_set_to_proto,
  open_config_from_proto, open_config_to_proto,
}
use robot_hal.Protocol.Sessions.{
  OpenResponse, ResourceSelectorMessage, lease_mode_of_tag, lease_mode_to_proto,
  parse_session_lease, selector_from_proto, selector_to_proto,
}
use robot_hal.Protocol.Errors.{ErrorMessage, error_from_proto, error_to_proto}
use robot_hal.Can.Frame.{CanBatchSendError, ReceivedCanFrame, CanFrame, error}
use robot_hal.Can.Filter.{CanFilterSet}
use robot_hal.Can.Config.{CanOpenConfig}
use robot_hal.Core.Lease.{LeaseToken}
use robot_hal.Core.Resolution.{ResourceSelector, selector}
use robot_hal.Protocol.CoreEnums.{lease_mode_wire}

abbrev max_can_batch_frames : ℕ
max_can_batch_frames = 64

-- `(1..=MAX_CAN_BATCH_FRAMES).contains(&n)`
abbrev pub is_batch_size : ℕ → Bool
is_batch_size n = leb 1 n && leb n max_can_batch_frames

-- `lease_mode_from_proto`
unfoldable pub lease_mode_from_proto : ℕ → String → HalResult LeaseMode
unfolding required_enum
lease_mode_from_proto value field = do
  tag ← required_enum value field
  lease_mode_of_tag (invalid field "is required") tag

pub record OpenCanRequest : Type 0 where
  pub selector : Option ResourceSelectorMessage
  pub mode : ℕ
  pub config : Option (Option CanOpenConfigMessage)
  pub filters : Option (List CanFilterMessage)

-- `open_can_request_from_proto`
unfoldable pub open_can_request_from_proto :
    OpenCanRequest → HalResult (ResourceSelector × LeaseMode × CanOpenConfig × CanFilterSet)
unfolding required
open_can_request_from_proto m = do
  selector_message ← required m.selector "open_can.selector"
  s ← selector_from_proto selector_message
  fail_if (not (s.transport == can)) (invalid "open_can.selector.transport" "must be CAN")
  mode ← lease_mode_from_proto m.mode "open_can.mode"
  config_message ← required m.config "open_can.config"
  config ← open_config_from_proto config_message
  filter_messages ← required m.filters "open_can.filters"
  filters ← filter_set_from_proto filter_messages
  ok (s, mode, config, filters)

-- The request that a client sends.
abbrev pub open_can_request :
    ResourceSelector → LeaseMode → CanOpenConfig → CanFilterSet → OpenCanRequest
open_can_request s mode config filters = record {
  selector = some (selector_to_proto s);
  mode = as_i32 (lease_mode_to_proto mode);
  config = some (open_config_to_proto config);
  filters = some (filter_set_to_proto filters);
}

abbrev expect_mode : LeaseMode → SessionId × LeaseToken → HalResult (SessionId × LeaseToken)
expect_mode expected (session, lease) = do
  fail_if (not (lease.mode == expected))
      (invalid "open_can_response.lease.mode" "does not match the requested mode")
  ok (session, lease)

-- `open_can_response_from_proto`
unfoldable open_can_response_from_proto :
    OpenResponse → LeaseMode → HalResult (SessionId × LeaseToken)
open_can_response_from_proto m expected =
    parse_session_lease m.session_id m.lease >>= expect_mode expected

-- `send_can_frames_from_proto`
unfoldable pub send_can_frames_from_proto : List CanFrameMessage → HalResult (List CanFrame)
send_can_frames_from_proto frames = do
  fail_if (not (is_batch_size (length frames)))
      (invalid "can_send.frames" "must contain 1..=64 frames")
  collect_all frame_from_proto frames

-- `validate_input_count`
abbrev validate_input_count : ℕ → HalResult (Unit {0})
validate_input_count count =
    fail_if (not (is_batch_size count)) (invalid "can_send.input_count" "must be 1..=64")

pub record CanSendResponse : Type 0 where
  pub committed_count : ℕ
  pub error : Option ErrorMessage

-- `CanBatchSendError::backend_prefix`
abbrev backend_prefix : ℕ → HalError → HalResult (Option CanBatchSendError)
backend_prefix committed e = ok (some (record { error = e; committed = committed }))

-- The match of `can_send_response_from_proto`; `none` stands for `Ok(())`.
abbrev send_outcome : ℕ → ℕ → Option ErrorMessage → HalResult (Option CanBatchSendError)
send_outcome committed input_count none =
    if eqb committed input_count
    then ok none
    else err (
        invalid "can_send_response.committed_count"
          "must equal the input count when error is absent")
send_outcome committed input_count (some e) =
    if ltb committed input_count
    then error_from_proto e >>= backend_prefix committed
    else err (
        invalid "can_send_response.committed_count"
          "must be a strict input prefix when error is present")

-- `can_send_response_from_proto`
unfoldable pub can_send_response_from_proto :
    CanSendResponse → ℕ → HalResult (Option CanBatchSendError)
can_send_response_from_proto m input_count = do
  validate_input_count input_count
  send_outcome m.committed_count input_count m.error

abbrev send_response : Option CanBatchSendError → ℕ → HalResult CanSendResponse
send_response none input_count = ok (record { committed_count = input_count; error = none })
send_response (some e) input_count =
    if ltb e.committed input_count
    then ok (record { committed_count = e.committed; error = some (error_to_proto e.error) })
    else err (
        invalid "can_send_response.committed_count"
          "must be a strict input prefix when error is present")

-- `can_send_response_to_proto`; its `expect`s hold, since a validated count fits a `u32`.
unfoldable pub can_send_response_to_proto : Option CanBatchSendError → ℕ → HalResult CanSendResponse
can_send_response_to_proto result input_count = do
  validate_input_count input_count
  send_response result input_count

-- `can_receive_parameters`
unfoldable can_receive_parameters : ℕ → ℕ → HalResult (ℕ × ℕ)
can_receive_parameters max_frames timeout_ms = do
  fail_if (not (is_batch_size max_frames)) (invalid "can_receive.max_frames" "must be 1..=64")
  ok (max_frames, timeout_ms)

-- `received_can_frames_from_proto` and `can_receive_response_from_proto`
unfoldable received_can_frames_from_proto :
    List ReceivedCanFrameMessage → ℕ → HalResult (List ReceivedCanFrame)
received_can_frames_from_proto frames requested_max = do
  fail_if (not (is_batch_size requested_max)) (invalid "can_receive.requested_max" "must be 1..=64")
  fail_if (ltb requested_max (length frames))
      (invalid "can_receive_response.frames" "exceeds the requested maximum")
  collect_all received_from_proto frames
