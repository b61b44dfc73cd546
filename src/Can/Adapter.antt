-- ===== src/Can/Adapter.antt =====
-- crates/robot-hal-can/src/adapter.rs: the state of a bus and the configuration of an open one.
use robot_hal.Prelude.{
  ℕ, String, Bool, false, not, ◌&&◌, ◌||◌, Option, ltb, is_some, is_empty, is_ascii, byte_len,
}
use robot_hal.Core.Names.{invalid_argument}
use robot_hal.Core.Error.{HalError, HalResult, ok, ◌>>◌, fail_if, build_error}
use robot_hal.Can.Config.{CanMode, is_classic, CanBitTiming}

pub data CanBusState : Type 0 where
  bus_active bus_warning bus_passive bus_is_off bus_stopped bus_unknown : CanBusState

pub record CanBusStatus : Type 0 where
  pub state : CanBusState
  pub tx_error_counter : Option ℕ
  pub rx_error_counter : Option ℕ

pub record CanActiveConfig : Type 0 where
  pub mode : CanMode
  pub nominal : CanBitTiming
  pub data_timing : Option CanBitTiming
  pub listen_only : Bool
  pub loopback : Bool
  pub clock_domain : String

abbrev invalid_active : String → HalError
invalid_active message =
    build_error "can.configuration.invalid" invalid_argument "can.active_configuration" false
      message

-- `CanActiveConfig::new`
unfoldable pub new_active_config :
    CanMode → CanBitTiming → Option CanBitTiming → Bool → Bool → String → HalResult CanActiveConfig
new_active_config mode nominal data_timing listen_only loopback domain = do
  fail_if (is_empty domain || (ltb 255 (byte_len domain) || not (is_ascii domain)))
      (invalid_active "CAN clock domain must be non-empty ASCII of at most 255 bytes")
  fail_if
      ((is_classic mode && is_some data_timing)
        || (not (is_classic mode) && not (is_some data_timing)))
      (invalid_active "CAN active configuration has incompatible mode and data timing")
  ok (record {
    mode = mode;
    nominal = nominal;
    data_timing = data_timing;
    listen_only = listen_only;
    loopback = loopback;
    clock_domain = domain;
  })
