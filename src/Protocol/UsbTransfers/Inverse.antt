-- ===== src/Protocol/UsbTransfers/Inverse.antt =====
-- USB transfers from the client to the broker: crates/robot-hal-client/src/usb.rs encodes what
-- crates/robot-hal-protocol/src/conversion.rs decodes.
use robot_hal.Prelude.{ℕ, ◌≡◌, ◌↔◌, ◌≤◌, ◌<◌, ◌%◌, ◌^◌, true, arith, subst}
use robot_hal.Core.Error.{ok, is_ok}
use robot_hal.Protocol.UsbTransfers.{
  UsbTransferMessage, transfer_fields, usb_transfer_from_proto, transfer_of_kind, transfer_to_proto,
  usb_transfer_request_from_proto, with_transfer,
}
use robot_hal.Protocol.DeviceEnums.{
  usb_transfer_kind_of, UsbTransferKindTag, usb_transfer_kind_bulk_in, usb_transfer_kind_bulk_out,
  usb_transfer_kind_control_in, usb_transfer_kind_control_out, usb_transfer_kind_interrupt_in,
  usb_transfer_kind_interrupt_out, usb_transfer_kind_unspecified, usb_transfer_kind_wire,
}
use robot_hal.Devices.Usb.{
  UsbTransfer, bulk_in, bulk_out, control_in, control_out, interrupt_in, interrupt_out,
  validate_transfer, validated,
}
use robot_hal.Protocol.Wire.{>>=-eq-ok, Inverts, as_i32, required_enum, required_enum_iff}
use robot_hal.Devices.Serial.{from_millis}
use robot_hal.Protocol.Sessions.Inverse.{IsShown, control_session_returns}
use robot_hal.Core.Names.{SessionId, control}
use robot_hal.Core.Lease.{LeaseToken}
use robot_hal.Core.Identifier.{IsIdentifier}

-- The fields of a transfer have the widths of the source: `u8`, `u16`.
abbrev FieldsFit : UsbTransfer → Type 0
FieldsFit (control_out request_type request value index payload) =
    (request_type < 256) × (request < 256) × (value < 65536) × (index < 65536)
FieldsFit (control_in request_type request value index max_bytes) =
    (request_type < 256) × (request < 256) × (value < 65536) × (index < 65536)
FieldsFit (bulk_out endpoint payload) = endpoint < 256
FieldsFit (bulk_in endpoint max_bytes) = endpoint < 256
FieldsFit (interrupt_out endpoint payload) = endpoint < 256
FieldsFit (interrupt_in endpoint max_bytes) = endpoint < 256

abbrev IsTransfer : UsbTransfer → Type 0
IsTransfer t = (validate_transfer t ≡ ok tt) × FieldsFit t

arm_accepts :
    (m : UsbTransferMessage) (k : UsbTransferKindTag) (t : UsbTransfer)
    → m.kind ≡ as_i32 k
    → transfer_of_kind m k ≡ ok t
    → (m ≡ transfer_fields t) × IsTransfer t
unfolding validated validate_transfer
arm_accepts m usb_transfer_kind_unspecified t e h = ground arith
arm_accepts m usb_transfer_kind_control_out t e h = ground arith
arm_accepts m usb_transfer_kind_control_in t e h = ground arith
arm_accepts m usb_transfer_kind_bulk_out t e h = ground arith
arm_accepts m usb_transfer_kind_bulk_in t e h = ground arith
arm_accepts m usb_transfer_kind_interrupt_out t e h = ground arith
arm_accepts m usb_transfer_kind_interrupt_in t e h = ground arith

usb_transfer_from_proto-IsTransfer :
    (m : UsbTransferMessage) (t : UsbTransfer)
    → usb_transfer_from_proto m ≡ ok t
    → (m ≡ transfer_fields t) × IsTransfer t
unfolding usb_transfer_from_proto
usb_transfer_from_proto-IsTransfer m t h =
    let (k, p, q) = >>=-eq-ok (required_enum m.kind "usb_transfer.kind") (transfer_of_kind m) h in
    arm_accepts m k t ((required_enum_iff m.kind "usb_transfer.kind" k).0 p) q

transfer_returns :
    (t : UsbTransfer) → IsTransfer t → usb_transfer_from_proto (transfer_fields t) ≡ ok t
unfolding usb_transfer_from_proto usb_transfer_kind_of validated validate_transfer
transfer_returns (control_out a b c d p) h = ground arith
transfer_returns (control_in a b c d n) h = ground arith
transfer_returns (bulk_out e p) h = ground arith
transfer_returns (bulk_in e n) h = ground arith
transfer_returns (interrupt_out e p) h = ground arith
transfer_returns (interrupt_in e n) h = ground arith

usb_transfer_from_proto-Inverts : Inverts usb_transfer_from_proto transfer_fields IsTransfer
usb_transfer_from_proto-Inverts = record {
  accepts = usb_transfer_from_proto-IsTransfer;
  returns = transfer_returns;
}

decoded_valid :
    (timeout_ms : ℕ) (m : UsbTransferMessage) (transfer : UsbTransfer) (s : SessionId)
    (t : LeaseToken)
    → with_transfer (from_millis timeout_ms) m (s, t) ≡ ok (s, t, transfer, from_millis timeout_ms)
    → validate_transfer transfer ≡ ok tt
decoded_valid timeout_ms m transfer s t h =
    let (transfer', p, q) = >>=-eq-ok (usb_transfer_from_proto m) _ h in
    let (e, (valid, fits)) = usb_transfer_from_proto-IsTransfer m transfer' p in
    subst (λ (x : UsbTransfer). validate_transfer x ≡ ok tt) (ground (arith, q)) valid

-- The transfer that the message of the client stands for: `as u32` wraps the size of a read. The
-- client's `transfer` validates a transfer before it encodes it, so that a size that wraps is not sent.
abbrev pub as_sent : UsbTransfer → UsbTransfer
as_sent (control_in request_type request value index max_bytes) =
    control_in request_type request value index (max_bytes % 2 ^ 32)
as_sent (bulk_in endpoint max_bytes) = bulk_in endpoint (max_bytes % 2 ^ 32)
as_sent (interrupt_in endpoint max_bytes) = interrupt_in endpoint (max_bytes % 2 ^ 32)
as_sent transfer = transfer

sent_accepted :
    (t : UsbTransfer)
    → FieldsFit t
    → (is_ok (usb_transfer_from_proto (transfer_fields t)) ≡ true)
      ↔ (validate_transfer (as_sent t) ≡ ok tt)
unfolding usb_transfer_from_proto usb_transfer_kind_of validated validate_transfer
sent_accepted (control_out a b c d p) h = ground arith
sent_accepted (control_in a b c d n) h = ground arith
sent_accepted (bulk_out e p) h = ground arith
sent_accepted (bulk_in e n) h = ground arith
sent_accepted (interrupt_out e p) h = ground arith
sent_accepted (interrupt_in e n) h = ground arith

-- The broker reads a USB request as the session, the token, the transfer and the timeout that a
-- client sent: what the client makes of an identified session, a control token of a generation of
-- at least 1, a transfer whose fields have their widths, and a timeout of at least 1 millisecond, is
-- decoded to those four exactly when the transfer is valid. The request is accepted, as this or as
-- another transfer, exactly when the transfer is valid with the size that the client sends, which is
-- the size of a read modulo 2^32; it is refused otherwise.
pub usb_request_round_trip :
    (s : SessionId) (t : LeaseToken) (transfer : UsbTransfer) (timeout_ms : ℕ)
    → IsIdentifier s.as_str
    → IsShown t
    → t.mode ≡ control
    → FieldsFit transfer
    → 1 ≤ timeout_ms
    → let received = usb_transfer_request_from_proto (transfer_to_proto s t transfer timeout_ms) in
      ((received ≡ ok (s, t, transfer, from_millis timeout_ms))
        ↔ (validate_transfer transfer ≡ ok tt))
      × ((is_ok received ≡ true) ↔ (validate_transfer (as_sent transfer) ≡ ok tt))
unfolding usb_transfer_request_from_proto
usb_request_round_trip s t transfer timeout_ms id shown held fit waits =
    let parsed = control_session_returns "USB" s t id shown held in
    (
      (
        λ h.
            decoded_valid timeout_ms (transfer_fields transfer) transfer s t
              (ground (arith, parsed, h)),
        λ valid. ground (arith, parsed, transfer_returns transfer (valid, fit)),
      ),
      ground (arith, parsed, sent_accepted transfer fit),
    )
