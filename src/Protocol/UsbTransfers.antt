-- ===== src/Protocol/UsbTransfers.antt =====
-- crates/robot-hal-protocol/src/conversion.rs: USB transfers, with the encoder of
-- crates/robot-hal-client/src/usb.rs, with the
-- messages of proto/seeed/hal/v1/hal.proto.
pub mod Inverse
use robot_hal.Prelude.{ℕ, ◌^◌, ◌%◌, String, Bool, not, ◌||◌, Option, some, List, [], concat, eqb}
use robot_hal.Core.Error.{HalError, HalResult, ok, err, ◌>>=◌, ◌>>◌, fail_if}
use robot_hal.Can.Frame.{is_nil}
use robot_hal.Protocol.Wire.{as_i32, invalid_message, or_error, required_enum, u16_of, u8_of}
use robot_hal.Protocol.DeviceEnums.{
  UsbTransferKindTag, usb_transfer_kind_bulk_in, usb_transfer_kind_bulk_out,
  usb_transfer_kind_control_in, usb_transfer_kind_control_out, usb_transfer_kind_interrupt_in,
  usb_transfer_kind_interrupt_out, usb_transfer_kind_unspecified, usb_transfer_kind_wire,
}
use robot_hal.Devices.Usb.{
  UsbTransfer, bulk_in, bulk_out, control_in, control_out, interrupt_in, interrupt_out, validated,
}
use robot_hal.Devices.Serial.{from_millis}
use robot_hal.Protocol.Sessions.{LeaseTokenMessage, lease_to_proto, parse_control_session_lease}
use robot_hal.Core.Names.{SessionId, control}
use robot_hal.Core.Lease.{LeaseToken}

-- `UsbTransferRequest` without its session, lease and timeout.
pub record UsbTransferMessage : Type 0 where
  pub kind : ℕ
  pub request_type : ℕ
  pub request : ℕ
  pub value : ℕ
  pub index : ℕ
  pub endpoint : ℕ
  pub payload : List ℕ
  pub max_bytes : ℕ

abbrev out_of_bounds : HalError
out_of_bounds = invalid_message "usb_transfer violates the public USB transfer bounds"

abbrev byte : ℕ → String → HalResult ℕ
byte value field = u8_of value (invalid_message (concat field " exceeds u8"))

abbrev word : ℕ → String → HalResult ℕ
word value field = u16_of value (invalid_message (concat field " exceeds u16"))

abbrev has_control_fields : UsbTransferMessage → Bool
has_control_fields m =
    not (eqb m.request_type 0)
    || (not (eqb m.request 0) || (not (eqb m.value 0) || not (eqb m.index 0)))

-- The arms of the match on the kind.
abbrev pub transfer_of_kind : UsbTransferMessage → UsbTransferKindTag → HalResult UsbTransfer
transfer_of_kind m usb_transfer_kind_control_out = do
  fail_if (not (eqb m.endpoint 0) || not (eqb m.max_bytes 0))
      (invalid_message "control-out transfer must not set endpoint or max_bytes")
  request_type ← byte m.request_type "usb_transfer.request_type"
  request ← byte m.request "usb_transfer.request"
  value ← word m.value "usb_transfer.value"
  index ← word m.index "usb_transfer.index"
  or_error (validated (control_out request_type request value index m.payload)) out_of_bounds
transfer_of_kind m usb_transfer_kind_control_in = do
  fail_if (not (eqb m.endpoint 0) || not (is_nil m.payload))
      (invalid_message "control-in transfer must not set endpoint or data")
  request_type ← byte m.request_type "usb_transfer.request_type"
  request ← byte m.request "usb_transfer.request"
  value ← word m.value "usb_transfer.value"
  index ← word m.index "usb_transfer.index"
  or_error (validated (control_in request_type request value index m.max_bytes)) out_of_bounds
transfer_of_kind m usb_transfer_kind_bulk_out = do
  fail_if (has_control_fields m || not (eqb m.max_bytes 0))
      (invalid_message "bulk-out transfer has control or max_bytes fields")
  endpoint ← byte m.endpoint "usb_transfer.endpoint"
  or_error (validated (bulk_out endpoint m.payload)) out_of_bounds
transfer_of_kind m usb_transfer_kind_bulk_in = do
  fail_if (has_control_fields m || not (is_nil m.payload))
      (invalid_message "bulk-in transfer has control or data fields")
  endpoint ← byte m.endpoint "usb_transfer.endpoint"
  or_error (validated (bulk_in endpoint m.max_bytes)) out_of_bounds
transfer_of_kind m usb_transfer_kind_interrupt_out = do
  fail_if (has_control_fields m || not (eqb m.max_bytes 0))
      (invalid_message "interrupt-out transfer has control or max_bytes fields")
  endpoint ← byte m.endpoint "usb_transfer.endpoint"
  or_error (validated (interrupt_out endpoint m.payload)) out_of_bounds
transfer_of_kind m usb_transfer_kind_interrupt_in = do
  fail_if (has_control_fields m || not (is_nil m.payload))
      (invalid_message "interrupt-in transfer has control or data fields")
  endpoint ← byte m.endpoint "usb_transfer.endpoint"
  or_error (validated (interrupt_in endpoint m.max_bytes)) out_of_bounds
transfer_of_kind m usb_transfer_kind_unspecified =
    or_error (err (invalid_message "usb_transfer.kind is required")) out_of_bounds

-- `usb_transfer_from_proto`. Its last `map_err` applies to the value of every arm, also to the error
-- of an unspecified kind.
unfoldable pub usb_transfer_from_proto : UsbTransferMessage → HalResult UsbTransfer
unfolding required_enum
usb_transfer_from_proto m = required_enum m.kind "usb_transfer.kind" >>= transfer_of_kind m

pub record UsbTransferRequest : Type 0 where
  pub session_id : String
  pub lease : Option LeaseTokenMessage
  pub transfer : UsbTransferMessage
  pub timeout_ms : ℕ

-- `nonzero_timeout`
unfoldable nonzero_timeout : ℕ → String → HalResult ℕ
nonzero_timeout value field = do
  fail_if (eqb value 0) (invalid_message (concat field " must be greater than zero"))
  ok (from_millis value)

-- The parts of a decoded request.
abbrev pub with_transfer :
    ℕ
    → UsbTransferMessage
    → SessionId × LeaseToken
    → HalResult (SessionId × LeaseToken × UsbTransfer × ℕ)
with_transfer timeout m (session, lease) = do
  transfer ← usb_transfer_from_proto m
  ok (session, lease, transfer, timeout)

-- `usb_transfer_request_from_proto`
unfoldable pub usb_transfer_request_from_proto :
    UsbTransferRequest → HalResult (SessionId × LeaseToken × UsbTransfer × ℕ)
unfolding nonzero_timeout
usb_transfer_request_from_proto m = do
  timeout ← nonzero_timeout m.timeout_ms "usb_transfer.timeout_ms"
  parse_control_session_lease m.session_id m.lease "USB" >>= with_transfer timeout m.transfer

abbrev default_transfer : UsbTransferMessage
default_transfer = record {
  kind = as_i32 usb_transfer_kind_unspecified;
  request_type = 0;
  request = 0;
  value = 0;
  index = 0;
  endpoint = 0;
  payload = [];
  max_bytes = 0;
}

-- The match of `transfer_to_proto` in crates/robot-hal-client/src/usb.rs; `as u32` wraps.
abbrev pub transfer_fields : UsbTransfer → UsbTransferMessage
transfer_fields (control_out request_type request value index payload) = record default_transfer {
  kind = as_i32 usb_transfer_kind_control_out;
  request_type = request_type;
  request = request;
  value = value;
  index = index;
  payload = payload;
}
transfer_fields (control_in request_type request value index max_bytes) = record default_transfer {
  kind = as_i32 usb_transfer_kind_control_in;
  request_type = request_type;
  request = request;
  value = value;
  index = index;
  max_bytes = max_bytes % 2 ^ 32;
}
transfer_fields (bulk_out endpoint payload) = record default_transfer {
  kind = as_i32 usb_transfer_kind_bulk_out;
  endpoint = endpoint;
  payload = payload;
}
transfer_fields (bulk_in endpoint max_bytes) = record default_transfer {
  kind = as_i32 usb_transfer_kind_bulk_in;
  endpoint = endpoint;
  max_bytes = max_bytes % 2 ^ 32;
}
transfer_fields (interrupt_out endpoint payload) = record default_transfer {
  kind = as_i32 usb_transfer_kind_interrupt_out;
  endpoint = endpoint;
  payload = payload;
}
transfer_fields (interrupt_in endpoint max_bytes) = record default_transfer {
  kind = as_i32 usb_transfer_kind_interrupt_in;
  endpoint = endpoint;
  max_bytes = max_bytes % 2 ^ 32;
}

-- `transfer_to_proto` of the client
abbrev pub transfer_to_proto : SessionId → LeaseToken → UsbTransfer → ℕ → UsbTransferRequest
transfer_to_proto session lease transfer timeout_ms = record {
  session_id = session.as_str;
  lease = some (lease_to_proto lease);
  transfer = transfer_fields transfer;
  timeout_ms = timeout_ms;
}
