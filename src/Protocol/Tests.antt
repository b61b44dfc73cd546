-- ===== src/Protocol/Tests.antt =====
-- Messages of the protocol of robot-hal-protocol on concrete values.
use robot_hal.Prelude.{
  ℕ, ◌≡◌, ◌↔◌, ◌≤◌, refl, true, false, none, some, [], ◌∷◌, arith, is_ascii, get,
}
use robot_hal.Core.Names.{SessionId, ResourceId, OwnerId, control, can, strong, unavailable}
use robot_hal.Core.Error.{HalError, ok, build_error, is_ok}
use robot_hal.Core.Identifier.{IsIdentifier}
use robot_hal.Core.Lease.{LeaseToken}
use robot_hal.Protocol.CanFrames.{frame_from_proto, frame_to_proto}
use robot_hal.Protocol.CanFrames.Inverse.{frame_from_proto_iff}
use robot_hal.Protocol.CanRequests.{open_can_request, open_can_request_from_proto}
use robot_hal.Protocol.CanRequests.Inverse.{open_can_request_from_proto_iff}
use robot_hal.Protocol.Versions.{IsShared, negotiate_protocol_minor, negotiate_protocol_minor_iff}
use robot_hal.Protocol.UsbTransfers.{transfer_to_proto, usb_transfer_request_from_proto}
use robot_hal.Protocol.UsbTransfers.Inverse.{as_sent, usb_request_round_trip}
use robot_hal.Protocol.SerialPorts.{serial_config_from_proto, serial_config_to_proto}
use robot_hal.Protocol.SerialPorts.Inverse.{IsWired, serial_config_from_proto_iff}
use robot_hal.Protocol.Issued.{issued_token_arrives}
use robot_hal.Protocol.Sessions.{open_response_from_proto, open_response_to_proto}
use robot_hal.Protocol.Sessions.Inverse.{IsNamed}
use robot_hal.Protocol.CanLinks.Inverse.{IsOpenConfig}
use robot_hal.Protocol.CanLinks.Filters.{IsFilterSet}
use robot_hal.Protocol.Errors.{IsError}
use robot_hal.Devices.Usb.{UsbTransfer, control_out, validate_transfer}
use robot_hal.Devices.Serial.{SerialConfig, eight, from_millis, no_control, no_parity, one}
use robot_hal.Can.Config.{CanOpenConfig, attach, fd}
use robot_hal.Can.Filter.{CanFilterSet, data_only, only_standard}
use robot_hal.Can.Frame.{CanFrame, IsLegal, extended, fd_data}
use robot_hal.Core.Resolution.{ResourceSelector}
use robot_hal.Runtime.LeaseTable.{empty, reserve_control}

abbrev torque : CanFrame
torque = fd_data (extended 0x1234) (1 ∷ 2 ∷ 3 ∷ []) true false

frame_from_proto_iff_example :
    (frame_from_proto (frame_to_proto torque) ≡ ok torque)
    ↔ ((frame_to_proto torque ≡ frame_to_proto torque) × IsLegal torque)
frame_from_proto_iff_example = frame_from_proto_iff (frame_to_proto torque) torque

abbrev bus : ResourceSelector
bus = record { id = record { as_str = "can0" }; minimum_identity_quality = strong; transport = can }

abbrev expected : CanOpenConfig
expected = attach (record {
  mode = some fd;
  nominal_bitrate = some 500000;
  data_bitrate = none;
  listen_only = none;
  loopback = some false;
})

abbrev joints : CanFilterSet
joints = record { id = 0x123; mask = 0x7ff; format = only_standard; classes = data_only } ∷ []

open_can_request_from_proto_iff_example :
    (open_can_request_from_proto (open_can_request bus control expected joints)
      ≡ ok (bus, control, expected, joints))
    ↔ ((open_can_request bus control expected joints ≡ open_can_request bus control expected joints)
        × IsNamed bus
        × (bus.transport ≡ can)
        × IsOpenConfig expected
        × IsFilterSet joints)
open_can_request_from_proto_iff_example =
    open_can_request_from_proto_iff (open_can_request bus control expected joints) bus control
      expected joints

abbrev full_queue : HalError
full_queue = build_error "can.send.queue_full" unavailable "can.send" true "no room"

queue_full-IsError : IsError full_queue
unfolding is_ascii
queue_full-IsError = record {
  named = record { filled = refl; short = omega arith; ascii = refl };
  located = record { filled = refl; short = omega arith; ascii = refl };
  resource = tt;
  platform = tt;
  vendor = tt;
  bounded = record { few = omega arith; small = omega arith; legal = tt };
}

negotiate_protocol_minor_iff_example :
    ((negotiate_protocol_minor 1 0 3 1 2 5 ≡ ok 3)
      ↔ (◌≡◌ {A = ℕ} 1 1 × IsShared 0 3 2 5 3 × ((w : ℕ) → IsShared 0 3 2 5 w → w ≤ 3)))
    × (((u : ℕ) × (negotiate_protocol_minor 1 0 3 1 2 5 ≡ ok u))
        ↔ (◌≡◌ {A = ℕ} 1 1 × ((w : ℕ) × IsShared 0 3 2 5 w)))
negotiate_protocol_minor_iff_example =
    negotiate_protocol_minor_iff 1 0 3 1 2 5 3 (omega arith) (omega arith)

abbrev session : SessionId
session = record { as_str = "session-1" }

abbrev token : LeaseToken
token = record { lease_id = record { as_str = "lease-1" }; generation = 1; mode = control }

session-IsIdentifier : IsIdentifier "session-1"
unfolding is_ascii
session-IsIdentifier = record { filled = refl; short = omega arith; ascii = refl }

lease-IsIdentifier : IsIdentifier "lease-1"
unfolding is_ascii
lease-IsIdentifier = record { filled = refl; short = omega arith; ascii = refl }

abbrev set_line_coding : UsbTransfer
set_line_coding = control_out 0x21 0x20 0 0 (0 ∷ 194 ∷ 1 ∷ 0 ∷ 0 ∷ 0 ∷ 8 ∷ [])

usb_request_round_trip_example :
    let received =
      usb_transfer_request_from_proto (transfer_to_proto session token set_line_coding 1000) in
    ((received ≡ ok (session, token, set_line_coding, from_millis 1000))
      ↔ (validate_transfer set_line_coding ≡ ok tt))
    × ((is_ok received ≡ true) ↔ (validate_transfer (as_sent set_line_coding) ≡ ok tt))
usb_request_round_trip_example =
    usb_request_round_trip session token set_line_coding 1000 session-IsIdentifier
      (lease-IsIdentifier, omega arith) refl (omega arith, omega arith, omega arith, omega arith)
      (omega arith)

abbrev servo_bus : SerialConfig
servo_bus = record {
  baud_rate = 1000000;
  data_bits = eight;
  parity = no_parity;
  stop_bits = one;
  flow_control = no_control;
  read_timeout = 20000000;
}

serial_config_from_proto_iff_example :
    (serial_config_from_proto (serial_config_to_proto servo_bus) ≡ ok servo_bus)
    ↔ ((serial_config_to_proto servo_bus ≡ serial_config_to_proto servo_bus) × IsWired servo_bus)
serial_config_from_proto_iff_example =
    serial_config_from_proto_iff (serial_config_to_proto servo_bus) servo_bus (omega arith)

abbrev port : ResourceId
port = record { as_str = "ttyUSB0" }

abbrev owner : OwnerId
owner = record { as_str = "arm" }

first_token : (reserve_control empty port session owner token.lease_id).1 ≡ ok token
unfolding reserve_control get
first_token = refl

issued_token_arrives_example :
    open_response_from_proto "serial" (open_response_to_proto session token) ≡ ok (session, token)
issued_token_arrives_example =
    issued_token_arrives empty port session owner token.lease_id token "serial" first_token
      session-IsIdentifier lease-IsIdentifier
