-- ===== src/Protocol/SerialPorts.antt =====
-- crates/robot-hal-protocol/src/conversion.rs: the configuration of a serial port, with the
-- messages of proto/seeed/hal/v1/hal.proto.
pub mod Inverse
use robot_hal.Prelude.{ℕ, ◌-◌, ◌^◌, ◌||◌, ltb, eqb, if◌then◌else◌}
use robot_hal.Core.Error.{HalResult, ok, err, ◌>>=◌, ◌>>◌, fail_if}
use robot_hal.Protocol.Wire.{as_i32, invalid_message, required_enum}
use robot_hal.Protocol.SerialEnums.{
  DataBitsTag, FlowControlTag, ParityTag, StopBitsTag, data_bits_eight, data_bits_five,
  data_bits_seven, data_bits_six, data_bits_unspecified, flow_control_hardware, flow_control_none,
  flow_control_software, flow_control_unspecified, parity_even, parity_none, parity_odd,
  parity_unspecified, stop_bits_one, stop_bits_two, stop_bits_unspecified, data_bits_wire,
  flow_control_wire, parity_wire, stop_bits_wire,
}
use robot_hal.Devices.Serial.{
  DataBits, FlowControl, Parity, SerialConfig, StopBits, as_millis, eight, even, five, from_millis,
  hardware, no_control, no_parity, odd, one, seven, six, software, two,
}

pub record SerialConfigMessage : Type 0 where
  pub baud_rate : ℕ
  pub data_bits : ℕ
  pub parity : ℕ
  pub stop_bits : ℕ
  pub flow_control : ℕ
  pub read_timeout_ms : ℕ

abbrev pub data_bits_of_tag : DataBitsTag → HalResult DataBits
data_bits_of_tag data_bits_five = ok five
data_bits_of_tag data_bits_six = ok six
data_bits_of_tag data_bits_seven = ok seven
data_bits_of_tag data_bits_eight = ok eight
data_bits_of_tag data_bits_unspecified = err (invalid_message "data_bits is required")

abbrev pub parity_of_tag : ParityTag → HalResult Parity
parity_of_tag parity_none = ok no_parity
parity_of_tag parity_odd = ok odd
parity_of_tag parity_even = ok even
parity_of_tag parity_unspecified = err (invalid_message "parity is required")

abbrev pub stop_bits_of_tag : StopBitsTag → HalResult StopBits
stop_bits_of_tag stop_bits_one = ok one
stop_bits_of_tag stop_bits_two = ok two
stop_bits_of_tag stop_bits_unspecified = err (invalid_message "stop_bits is required")

abbrev pub flow_control_of_tag : FlowControlTag → HalResult FlowControl
flow_control_of_tag flow_control_none = ok no_control
flow_control_of_tag flow_control_software = ok software
flow_control_of_tag flow_control_hardware = ok hardware
flow_control_of_tag flow_control_unspecified = err (invalid_message "flow_control is required")

-- `SerialConfig::try_from`
unfoldable pub serial_config_from_proto : SerialConfigMessage → HalResult SerialConfig
unfolding required_enum invalid_message
serial_config_from_proto m = do
  fail_if (eqb m.baud_rate 0 || eqb m.read_timeout_ms 0)
      (invalid_message "baud_rate and read_timeout_ms must be greater than zero")
  data_bits ← required_enum m.data_bits "data_bits" >>= data_bits_of_tag
  parity ← required_enum m.parity "parity" >>= parity_of_tag
  stop_bits ← required_enum m.stop_bits "stop_bits" >>= stop_bits_of_tag
  flow_control ← required_enum m.flow_control "flow_control" >>= flow_control_of_tag
  ok (record {
    baud_rate = m.baud_rate;
    data_bits = data_bits;
    parity = parity;
    stop_bits = stop_bits;
    flow_control = flow_control;
    read_timeout = from_millis m.read_timeout_ms;
  })

abbrev pub data_bits_to_proto : DataBits → DataBitsTag
data_bits_to_proto five = data_bits_five
data_bits_to_proto six = data_bits_six
data_bits_to_proto seven = data_bits_seven
data_bits_to_proto eight = data_bits_eight

abbrev pub parity_to_proto : Parity → ParityTag
parity_to_proto no_parity = parity_none
parity_to_proto odd = parity_odd
parity_to_proto even = parity_even

abbrev pub stop_bits_to_proto : StopBits → StopBitsTag
stop_bits_to_proto one = stop_bits_one
stop_bits_to_proto two = stop_bits_two

abbrev pub flow_control_to_proto : FlowControl → FlowControlTag
flow_control_to_proto no_control = flow_control_none
flow_control_to_proto software = flow_control_software
flow_control_to_proto hardware = flow_control_hardware

-- `as_millis().try_into().unwrap_or(u64::MAX)`
abbrev wire_millis : ℕ → ℕ
wire_millis ns = if ltb (2 ^ 64 - 1) (as_millis ns) then 2 ^ 64 - 1 else as_millis ns

-- `From<&SerialConfig>`
abbrev pub serial_config_to_proto : SerialConfig → SerialConfigMessage
serial_config_to_proto c = record {
  baud_rate = c.baud_rate;
  data_bits = as_i32 (data_bits_to_proto c.data_bits);
  parity = as_i32 (parity_to_proto c.parity);
  stop_bits = as_i32 (stop_bits_to_proto c.stop_bits);
  flow_control = as_i32 (flow_control_to_proto c.flow_control);
  read_timeout_ms = wire_millis c.read_timeout;
}
