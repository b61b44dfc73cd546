-- ===== src/Protocol/SerialPorts/Inverse.antt =====
-- Serial configurations of crates/robot-hal-protocol/src/conversion.rs survive the wire in whole
-- milliseconds.
use robot_hal.Prelude.{ℕ, ◌≡◌, ◌↔◌, ◌≤◌, ◌<◌, ◌/◌, ◌%◌, ◌^◌, ◌||◌, eqb, arith}
use robot_hal.Core.Error.{ok, ◌>>=◌, fail_if}
use robot_hal.Protocol.SerialPorts.{
  SerialConfigMessage, data_bits_of_tag, data_bits_to_proto, flow_control_of_tag,
  flow_control_to_proto, parity_of_tag, parity_to_proto, serial_config_from_proto,
  serial_config_to_proto, stop_bits_of_tag, stop_bits_to_proto,
}
use robot_hal.Protocol.Wire.{
  >>=-eq-ok, Inverts, as_i32, enum-Inverts, invalid_message, ok_inj, required_enum,
}
use robot_hal.Protocol.SerialEnums.{
  DataBitsTag, FlowControlTag, ParityTag, StopBitsTag, data_bits_wire, flow_control_wire,
  parity_wire, stop_bits_wire,
}
use robot_hal.Devices.Serial.{
  DataBits, FlowControl, Parity, SerialConfig, StopBits, eight, even, five, hardware, no_control,
  no_parity, odd, one, seven, six, software, two,
}

data_bits_translates :
    (t : DataBitsTag) (a : DataBits) → (data_bits_of_tag t ≡ ok a) ↔ (t ≡ data_bits_to_proto a)
data_bits_translates t five = ground arith
data_bits_translates t six = ground arith
data_bits_translates t seven = ground arith
data_bits_translates t eight = ground arith

parity_translates :
    (t : ParityTag) (a : Parity) → (parity_of_tag t ≡ ok a) ↔ (t ≡ parity_to_proto a)
parity_translates t no_parity = ground arith
parity_translates t odd = ground arith
parity_translates t even = ground arith

stop_bits_translates :
    (t : StopBitsTag) (a : StopBits) → (stop_bits_of_tag t ≡ ok a) ↔ (t ≡ stop_bits_to_proto a)
stop_bits_translates t one = ground arith
stop_bits_translates t two = ground arith

flow_control_translates :
    (t : FlowControlTag) (a : FlowControl)
    → (flow_control_of_tag t ≡ ok a) ↔ (t ≡ flow_control_to_proto a)
flow_control_translates t no_control = ground arith
flow_control_translates t software = ground arith
flow_control_translates t hardware = ground arith

data_bits_inverts :
    Inverts
      (λ n. required_enum n "data_bits" >>= data_bits_of_tag)
      (λ a. as_i32 (data_bits_to_proto a))
      (λ a. Unit {0})
data_bits_inverts =
    enum-Inverts "data_bits" data_bits_of_tag data_bits_to_proto data_bits_translates

parity_inverts :
    Inverts
      (λ n. required_enum n "parity" >>= parity_of_tag)
      (λ a. as_i32 (parity_to_proto a))
      (λ a. Unit {0})
parity_inverts = enum-Inverts "parity" parity_of_tag parity_to_proto parity_translates

stop_bits_inverts :
    Inverts
      (λ n. required_enum n "stop_bits" >>= stop_bits_of_tag)
      (λ a. as_i32 (stop_bits_to_proto a))
      (λ a. Unit {0})
stop_bits_inverts =
    enum-Inverts "stop_bits" stop_bits_of_tag stop_bits_to_proto stop_bits_translates

flow_control_inverts :
    Inverts
      (λ n. required_enum n "flow_control" >>= flow_control_of_tag)
      (λ a. as_i32 (flow_control_to_proto a))
      (λ a. Unit {0})
flow_control_inverts =
    enum-Inverts "flow_control" flow_control_of_tag flow_control_to_proto flow_control_translates

-- A timeout in whole milliseconds, from 1 to the greatest `u64`.
abbrev WholeMillis : ℕ → Type 0
WholeMillis ns = (1000000 ≤ ns) × (ns % 1000000 ≡ 0) × (ns / 1000000 < 2 ^ 64)

abbrev pub IsWired : SerialConfig → Type 0
IsWired c = (1 ≤ c.baud_rate) × WholeMillis c.read_timeout

serial_accepts :
    (m : SerialConfigMessage) (c : SerialConfig)
    → m.read_timeout_ms < 2 ^ 64
    → serial_config_from_proto m ≡ ok c
    → (m ≡ serial_config_to_proto c) × IsWired c
unfolding serial_config_from_proto
serial_accepts m c fits h =
    let (u, g, h0) =
      >>=-eq-ok
        (fail_if (eqb m.baud_rate 0 || eqb m.read_timeout_ms 0)
          (invalid_message "baud_rate and read_timeout_ms must be greater than zero"))
        _ h in
    let (bits, p1, h1) =
      >>=-eq-ok (required_enum m.data_bits "data_bits" >>= data_bits_of_tag) _ h0 in
    let (par, p2, h2) = >>=-eq-ok (required_enum m.parity "parity" >>= parity_of_tag) _ h1 in
    let (stops, p3, h3) =
      >>=-eq-ok (required_enum m.stop_bits "stop_bits" >>= stop_bits_of_tag) _ h2 in
    let (flow, p4, h4) =
      >>=-eq-ok (required_enum m.flow_control "flow_control" >>= flow_control_of_tag) _ h3 in
    let e1 = (data_bits_inverts.accepts m.data_bits bits p1).0 in
    let e2 = (parity_inverts.accepts m.parity par p2).0 in
    let e3 = (stop_bits_inverts.accepts m.stop_bits stops p3).0 in
    let e4 = (flow_control_inverts.accepts m.flow_control flow p4).0 in
    ground (arith, g, e1, e2, e3, e4, ok_inj h4, fits)

serial_returns :
    (c : SerialConfig) → IsWired c → serial_config_from_proto (serial_config_to_proto c) ≡ ok c
unfolding serial_config_from_proto
serial_returns c wired = ground (
  arith,
  wired,
  data_bits_inverts.returns c.data_bits tt,
  parity_inverts.returns c.parity tt,
  stop_bits_inverts.returns c.stop_bits tt,
  flow_control_inverts.returns c.flow_control tt,
)

-- A message with a timeout of 64 bits decodes to a serial configuration exactly when it encodes it,
-- the baud rate is not 0 and the read timeout is a whole number of milliseconds from 1 to the
-- greatest `u64`.
pub serial_config_from_proto_iff :
    (m : SerialConfigMessage) (c : SerialConfig)
    → m.read_timeout_ms < 2 ^ 64
    → (serial_config_from_proto m ≡ ok c) ↔ ((m ≡ serial_config_to_proto c) × IsWired c)
serial_config_from_proto_iff m c fits =
    (serial_accepts m c fits, λ (e, wired). rw e (serial_returns c wired))
