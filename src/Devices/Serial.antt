-- ===== src/Devices/Serial.antt =====
-- crates/robot-hal-serial/src/lib.rs: the configuration of a serial port. A `Duration` is its number
-- of nanoseconds.
use robot_hal.Prelude.{ℕ, ◌*◌, ◌/◌}

pub data DataBits : Type 0 where
  five six seven eight : DataBits

pub data Parity : Type 0 where
  no_parity odd even : Parity

pub data StopBits : Type 0 where
  one two : StopBits

pub data FlowControl : Type 0 where
  no_control software hardware : FlowControl

pub record SerialConfig : Type 0 where
  pub baud_rate : ℕ
  pub data_bits : DataBits
  pub parity : Parity
  pub stop_bits : StopBits
  pub flow_control : FlowControl
  pub read_timeout : ℕ

-- `Duration::from_millis` and `as_millis`
abbrev pub from_millis : ℕ → ℕ
from_millis ms = ms * 1000000

abbrev pub as_millis : ℕ → ℕ
as_millis ns = ns / 1000000
