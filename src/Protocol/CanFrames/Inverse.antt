-- ===== src/Protocol/CanFrames/Inverse.antt =====
-- The decoders of crates/robot-hal-protocol/src/can_conversion.rs for frames accept exactly what the
-- encoders make of legal frames.
use robot_hal.Prelude.{ℕ, ◌≡◌, ◌↔◌, ◌≤◌, true, false, Option, List, [], map, arith, ◌∷◌}
use robot_hal.Core.Error.{ok}
use robot_hal.Protocol.CanEnums.{
  CanErrorClassTag, can_id_format_of, can_error_class_wire, can_frame_kind_of,
  CanTimestampSourceTag, can_timestamp_source_of, can_timestamp_source_wire,
}
use robot_hal.Protocol.CanFrames.{
  CanIdMessage, error_class_from_proto, error_class_of_tag, error_class_to_proto, id_from_proto,
  id_to_proto, CanFrameMessage, classic_data_from, classic_remote_from, error_frame_from,
  fd_data_from, frame_from_proto, frame_to_proto, CanTimestampMessage, ReceivedCanFrameMessage,
  received_from_proto, received_to_proto, timestamp_from_proto, timestamp_source_of_tag,
  timestamp_source_to_proto, timestamp_to_proto,
}
use robot_hal.Protocol.Wire.{
  Inverts, as_i32, required_enum, Every, collect_all, collect_all-Inverts, enum-Inverts, required,
  Within, encode_option, inverts_iff, transpose, transpose-Inverts, >>=-eq-ok, ok_inj, required_iff,
}
use robot_hal.Can.Frame.{
  ReceivedCanFrame, CanErrorClass, CanId, IdFits, bus_error, bus_off, controller, extended,
  extended_id, lost_arbitration, no_acknowledgement, other, protocol, restarted, standard,
  standard_id, transceiver, tx_timeout, CanFrame, IsLegal, classic_data, classic_remote, error,
  fd_data, new_classic_data, new_classic_remote, new_error_frame, new_fd_data, valid_fd_data_length,
  CanTimestamp, CanTimestampSource, hardware, host_monotonic, kernel,
}
use robot_hal.Prelude.{byte_len, is_ascii, is_empty}

id_accepts :
    (m : CanIdMessage) (id : CanId) → id_from_proto m ≡ ok id → (m ≡ id_to_proto id) × IdFits id
unfolding id_from_proto required_enum standard_id extended_id can_id_format_of
id_accepts m (standard v) h = ground arith
id_accepts m (extended v) h = ground arith

id_returns : (id : CanId) → IdFits id → id_from_proto (id_to_proto id) ≡ ok id
unfolding id_from_proto required_enum standard_id extended_id can_id_format_of
id_returns (standard v) h = ground arith
id_returns (extended v) h = ground arith

id_inverts : Inverts id_from_proto id_to_proto IdFits
id_inverts = record { accepts = id_accepts; returns = id_returns }

class_translates :
    (t : CanErrorClassTag) (c : CanErrorClass)
    → (error_class_of_tag t ≡ ok c) ↔ (t ≡ error_class_to_proto c)
class_translates t tx_timeout = ground arith
class_translates t lost_arbitration = ground arith
class_translates t controller = ground arith
class_translates t protocol = ground arith
class_translates t transceiver = ground arith
class_translates t no_acknowledgement = ground arith
class_translates t bus_off = ground arith
class_translates t bus_error = ground arith
class_translates t restarted = ground arith
class_translates t other = ground arith

error_class_inverts :
    Inverts error_class_from_proto (λ c. as_i32 (error_class_to_proto c)) (λ c. Unit {0})
unfolding error_class_from_proto
error_class_inverts =
    enum-Inverts "can_frame.error_classes" error_class_of_tag error_class_to_proto class_translates

error_classes_inverts :
    Inverts
      (collect_all error_class_from_proto)
      (map (λ c. as_i32 (error_class_to_proto c)))
      (Every (λ c. Unit {0}))
error_classes_inverts = collect_all-Inverts error_class_inverts

every : (classes : List CanErrorClass) → Every (λ c. Unit {0}) classes
every [] = tt
every (c ∷ classes) = (tt, every classes)

classic_data_accepts :
    (m : CanFrameMessage) (f : CanFrame)
    → m.kind ≡ 1
    → classic_data_from m ≡ ok f
    → (m ≡ frame_to_proto f) × IsLegal f
unfolding classic_data_from
classic_data_accepts m f k h = grind (arith, id_accepts)

classic_remote_accepts :
    (m : CanFrameMessage) (f : CanFrame)
    → m.kind ≡ 2
    → classic_remote_from m ≡ ok f
    → (m ≡ frame_to_proto f) × IsLegal f
unfolding classic_remote_from
classic_remote_accepts m f k h = grind (arith, id_accepts)

fd_data_accepts :
    (m : CanFrameMessage) (f : CanFrame)
    → m.kind ≡ 3
    → fd_data_from m ≡ ok f
    → (m ≡ frame_to_proto f) × IsLegal f
unfolding fd_data_from valid_fd_data_length
fd_data_accepts m f k h = grind (arith, id_accepts)

classes_accept :
    (ms : List ℕ) (classes : List CanErrorClass)
    → collect_all error_class_from_proto ms ≡ ok classes
    → ms ≡ map (λ c. as_i32 (error_class_to_proto c)) classes
classes_accept ms classes h = (error_classes_inverts.accepts ms classes h).0

error_frame_accepts :
    (m : CanFrameMessage) (f : CanFrame)
    → m.kind ≡ 4
    → error_frame_from m ≡ ok f
    → (m ≡ frame_to_proto f) × IsLegal f
unfolding error_frame_from
error_frame_accepts m f k h = grind (arith, classes_accept)

frame_accepts :
    (m : CanFrameMessage) (f : CanFrame)
    → frame_from_proto m ≡ ok f
    → (m ≡ frame_to_proto f) × IsLegal f
unfolding frame_from_proto can_frame_kind_of
frame_accepts m f h = ground (
  arith,
  classic_data_accepts m f,
  classic_remote_accepts m f,
  fd_data_accepts m f,
  error_frame_accepts m f,
)

frame_returns : (f : CanFrame) → IsLegal f → frame_from_proto (frame_to_proto f) ≡ ok f
unfolding frame_from_proto classic_data_from classic_remote_from fd_data_from error_frame_from
    required_enum can_frame_kind_of required new_classic_data new_classic_remote new_fd_data
    new_error_frame valid_fd_data_length
frame_returns (classic_data (standard v) payload) h = ground (arith, id_returns (standard v))
frame_returns (classic_data (extended v) payload) h = ground (arith, id_returns (extended v))
frame_returns (classic_remote (standard v) dlc) h = ground (arith, id_returns (standard v))
frame_returns (classic_remote (extended v) dlc) h = ground (arith, id_returns (extended v))
frame_returns (fd_data (standard v) payload brs esi) h = ground (arith, id_returns (standard v))
frame_returns (fd_data (extended v) payload brs esi) h = ground (arith, id_returns (extended v))
frame_returns (error classes payload) h =
    rw (error_classes_inverts.returns classes (every classes)) (ground arith)

pub frame_inverts : Inverts frame_from_proto frame_to_proto IsLegal
frame_inverts = record { accepts = frame_accepts; returns = frame_returns }

-- A message decodes to a frame exactly when the frame is legal on the bus and the message is the
-- one that encodes it: no field that the kind of frame does not use may be set, and the encoding of
-- a legal frame decodes to that frame.
pub frame_from_proto_iff :
    (m : CanFrameMessage) (f : CanFrame)
    → (frame_from_proto m ≡ ok f) ↔ ((m ≡ frame_to_proto f) × IsLegal f)
frame_from_proto_iff = inverts_iff frame_inverts

-- What `CanTimestamp::new` accepts.
abbrev IsClock : CanTimestamp → Type 0
IsClock t =
    (is_empty t.clock_domain ≡ false)
    × (byte_len t.clock_domain ≤ 255)
    × (is_ascii t.clock_domain ≡ true)

timestamp_source_translates :
    (t : CanTimestampSourceTag) (a : CanTimestampSource)
    → (timestamp_source_of_tag t ≡ ok a) ↔ (t ≡ timestamp_source_to_proto a)
timestamp_source_translates t hardware = ground arith
timestamp_source_translates t kernel = ground arith
timestamp_source_translates t host_monotonic = ground arith

timestamp_accepts :
    (m : CanTimestampMessage) (t : CanTimestamp)
    → timestamp_from_proto m ≡ ok t
    → (m ≡ timestamp_to_proto t) × IsClock t
unfolding timestamp_from_proto can_timestamp_source_of
timestamp_accepts m t h = ground arith

timestamp_returns :
    (t : CanTimestamp) → IsClock t → timestamp_from_proto (timestamp_to_proto t) ≡ ok t
unfolding timestamp_from_proto can_timestamp_source_of
timestamp_returns t h = ground arith

timestamp_inverts : Inverts timestamp_from_proto timestamp_to_proto IsClock
timestamp_inverts = record { accepts = timestamp_accepts; returns = timestamp_returns }

abbrev IsReceivable : ReceivedCanFrame → Type 0
IsReceivable r = IsLegal r.frame × Within IsClock r.timestamp

stamps_inverts :
    Inverts (transpose timestamp_from_proto) (encode_option timestamp_to_proto) (Within IsClock)
stamps_inverts = transpose-Inverts timestamp_inverts

stamps_accept :
    (m : Option CanTimestampMessage) (t : Option CanTimestamp)
    → transpose timestamp_from_proto m ≡ ok t
    → (m ≡ encode_option timestamp_to_proto t) × Within IsClock t
stamps_accept = stamps_inverts.accepts

received_accepts :
    (m : ReceivedCanFrameMessage) (r : ReceivedCanFrame)
    → received_from_proto m ≡ ok r
    → (m ≡ received_to_proto r) × IsReceivable r
unfolding received_from_proto
received_accepts m r h =
    let (fm, p, h1) = >>=-eq-ok (required m.frame "received_can_frame.frame") _ h in
    let (f, q, h2) = >>=-eq-ok (frame_from_proto fm) _ h1 in
    let (t, s, h3) = >>=-eq-ok (transpose timestamp_from_proto m.timestamp) _ h2 in
    ground (
      arith,
      (required_iff m.frame "received_can_frame.frame" fm).0 p,
      frame_accepts fm f q,
      stamps_accept m.timestamp t s,
      ok_inj h3,
    )

received_returns :
    (r : ReceivedCanFrame) → IsReceivable r → received_from_proto (received_to_proto r) ≡ ok r
unfolding received_from_proto
received_returns r (legal, clock) =
    ground (arith, frame_returns r.frame legal, stamps_inverts.returns r.timestamp clock)

received_inverts : Inverts received_from_proto received_to_proto IsReceivable
received_inverts = record { accepts = received_accepts; returns = received_returns }
