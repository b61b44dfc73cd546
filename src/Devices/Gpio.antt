-- ===== src/Devices/Gpio.antt =====
-- crates/robot-hal-gpio/src/lib.rs: line configurations, edge masks and edge requests.
use robot_hal.Prelude.{ℕ, Bool, false, not, ◌||◌, Option, none, some, ltb, eqb, bit_and}
use robot_hal.Core.Names.{invalid_argument}
use robot_hal.Core.Error.{HalResult, ok, ◌>>◌, fail_if, build_error}

abbrev max_gpio_events : ℕ
max_gpio_events = 1024

pub data GpioBias : Type 0 where
  disabled pull_up pull_down : GpioBias

pub data GpioDrive : Type 0 where
  push_pull open_drain open_source : GpioDrive

pub data GpioDirection : Type 0 where
  input output : GpioDirection

pub record GpioLineConfig : Type 0 where
  pub direction : GpioDirection
  pub active_low : Bool
  pub bias : GpioBias
  pub drive : Option GpioDrive
  pub initial_value : Option Bool

-- `GpioLineConfig::input` and `output`
abbrev pub input_config : Bool → GpioBias → GpioLineConfig
input_config active_low bias = record {
  direction = input;
  active_low = active_low;
  bias = bias;
  drive = none;
  initial_value = none;
}

abbrev pub output_config : Bool → Bool → GpioDrive → GpioLineConfig
output_config active_low initial_value drive = record {
  direction = output;
  active_low = active_low;
  bias = disabled;
  drive = some drive;
  initial_value = some initial_value;
}

pub data GpioEdge : Type 0 where
  rising falling : GpioEdge

-- `EdgeMask` is its bits.
abbrev pub rising_mask : ℕ
rising_mask = 1

abbrev pub falling_mask : ℕ
falling_mask = 2

abbrev pub both_mask : ℕ
both_mask = 3

abbrev edge_bit : GpioEdge → ℕ
edge_bit rising = rising_mask
edge_bit falling = falling_mask

-- `EdgeMask::contains`
unfoldable pub mask_contains : ℕ → GpioEdge → Bool
mask_contains mask edge = not (eqb (bit_and mask (edge_bit edge)) 0)

pub record GpioEdgeRequest : Type 0 where
  pub edges : ℕ
  pub capacity : ℕ

-- `GpioEdgeRequest::new`
unfoldable pub new_edge_request : ℕ → ℕ → HalResult GpioEdgeRequest
new_edge_request edges capacity = do
  fail_if (eqb edges 0 || (eqb capacity 0 || ltb max_gpio_events capacity)) (
      build_error "gpio.edge_request.invalid" invalid_argument "gpio.edge_request" false
        "edge request must select edges and use a bounded non-zero capacity")
  ok (record { edges = edges; capacity = capacity })

pub record GpioEdgeEvent : Type 0 where
  pub edge : GpioEdge
  pub monotonic_ns : ℕ
  pub sequence : ℕ
