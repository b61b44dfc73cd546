-- ===== src/Protocol/GpioLines.antt =====
-- crates/robot-hal-protocol/src/conversion.rs: GPIO line configurations, edge requests
-- and edge events, with the
-- messages of proto/seeed/hal/v1/hal.proto.
pub mod Inverse
use robot_hal.Prelude.{ℕ, ◌^◌, ◌%◌, Bool, true, false, Option, none, some, eqb}
use robot_hal.Core.Error.{HalResult, ok, err, ◌>>=◌, ◌>>◌, fail_if, ok_or}
use robot_hal.Protocol.Wire.{as_i32, invalid_message, or_error, required, required_enum}
use robot_hal.Protocol.DeviceEnums.{
  GpioBiasTag, GpioDirectionTag, GpioDriveTag, GpioEdgeTag, gpio_bias_disabled, gpio_bias_pull_down,
  gpio_bias_pull_up, gpio_bias_unspecified, gpio_direction_input, gpio_direction_output,
  gpio_direction_unspecified, gpio_drive_open_drain, gpio_drive_open_source, gpio_drive_push_pull,
  gpio_drive_unspecified, gpio_edge_falling, gpio_edge_rising, gpio_edge_unspecified,
  gpio_bias_wire, gpio_direction_wire, gpio_drive_wire, gpio_edge_wire,
}
use robot_hal.Devices.Gpio.{
  GpioBias, GpioDirection, GpioDrive, GpioEdge, GpioEdgeEvent, GpioEdgeRequest, GpioLineConfig,
  both_mask, disabled, falling, falling_mask, input, input_config, mask_contains, new_edge_request,
  open_drain, open_source, output, output_config, pull_down, pull_up, push_pull, rising,
  rising_mask,
}

pub record GpioLineConfigMessage : Type 0 where
  pub direction : ℕ
  pub active_low : Bool
  pub bias : ℕ
  pub drive : ℕ
  pub initial_value : Option Bool

abbrev pub bias_of_tag : GpioBiasTag → HalResult GpioBias
bias_of_tag gpio_bias_disabled = ok disabled
bias_of_tag gpio_bias_pull_up = ok pull_up
bias_of_tag gpio_bias_pull_down = ok pull_down
bias_of_tag gpio_bias_unspecified = err (invalid_message "gpio_config.bias is required")

abbrev pub drive_of_tag : GpioDriveTag → HalResult GpioDrive
drive_of_tag gpio_drive_push_pull = ok push_pull
drive_of_tag gpio_drive_open_drain = ok open_drain
drive_of_tag gpio_drive_open_source = ok open_source
drive_of_tag gpio_drive_unspecified = err (invalid_message "gpio_config.drive is required")

-- The arms of the match on the direction.
abbrev pub config_of_direction :
    GpioLineConfigMessage → GpioBias → GpioDirectionTag → HalResult GpioLineConfig
config_of_direction m bias gpio_direction_input = ok (input_config m.active_low bias)
config_of_direction m bias gpio_direction_output = do
  drive ← required_enum m.drive "gpio_config.drive" >>= drive_of_tag
  initial_value ←
      ok_or m.initial_value (invalid_message "gpio_config.initial_value is required for output")
  ok (output_config m.active_low initial_value drive)
config_of_direction m bias gpio_direction_unspecified =
    or_error (err (invalid_message "gpio_config.direction is required"))
      (invalid_message "gpio_config violates the public GPIO configuration bounds")

-- `gpio_config_from_proto`
unfoldable pub gpio_config_from_proto : GpioLineConfigMessage → HalResult GpioLineConfig
unfolding required_enum invalid_message
gpio_config_from_proto m = do
  direction ← required_enum m.direction "gpio_config.direction"
  bias ← required_enum m.bias "gpio_config.bias" >>= bias_of_tag
  config_of_direction m bias direction

abbrev bias_to_proto : GpioBias → GpioBiasTag
bias_to_proto disabled = gpio_bias_disabled
bias_to_proto pull_up = gpio_bias_pull_up
bias_to_proto pull_down = gpio_bias_pull_down

abbrev drive_to_proto : GpioDrive → GpioDriveTag
drive_to_proto push_pull = gpio_drive_push_pull
drive_to_proto open_drain = gpio_drive_open_drain
drive_to_proto open_source = gpio_drive_open_source

-- `value.drive().expect(..)`: an output configuration carries a drive.
abbrev output_drive : Option GpioDrive → GpioDriveTag
output_drive none = gpio_drive_unspecified
output_drive (some drive) = drive_to_proto drive

abbrev direction_parts :
    GpioDirection → GpioLineConfig → GpioDirectionTag × GpioDriveTag × Option Bool
direction_parts input c = (gpio_direction_input, gpio_drive_unspecified, none)
direction_parts output c = (gpio_direction_output, output_drive c.drive, c.initial_value)

-- `From<&GpioLineConfig>`
abbrev pub gpio_config_to_proto : GpioLineConfig → GpioLineConfigMessage
gpio_config_to_proto c = record {
  direction = as_i32 (direction_parts c.direction c).0;
  active_low = c.active_low;
  bias = as_i32 (bias_to_proto c.bias);
  drive = as_i32 (direction_parts c.direction c).1;
  initial_value = (direction_parts c.direction c).2;
}

pub record GpioNextEdgeMessage : Type 0 where
  pub rising_edge : Bool
  pub falling_edge : Bool
  pub capacity : ℕ

-- `gpio_edge_request_from_proto`; its last `map_err` hides the name of the bound.
abbrev edges_of : Bool → Bool → HalResult ℕ
edges_of true true = ok both_mask
edges_of true false = ok rising_mask
edges_of false true = ok falling_mask
edges_of false false = err (invalid_message "gpio_next_edge must select an edge")

unfoldable pub gpio_edge_request_from_proto : GpioNextEdgeMessage → HalResult GpioEdgeRequest
unfolding new_edge_request
gpio_edge_request_from_proto m = do
  edges ← edges_of m.rising_edge m.falling_edge
  or_error (new_edge_request edges m.capacity)
      (invalid_message "gpio_next_edge capacity violates public bounds")

-- The fields that `next_edge` of crates/robot-hal-client/src/gpio.rs sends.
abbrev pub next_edge_fields : GpioEdgeRequest → GpioNextEdgeMessage
next_edge_fields r = record {
  rising_edge = mask_contains r.edges rising;
  falling_edge = mask_contains r.edges falling;
  capacity = r.capacity % 2 ^ 32;
}

pub record GpioEdgeEventMessage : Type 0 where
  pub edge : ℕ
  pub monotonic_ns : ℕ
  pub sequence : ℕ

abbrev pub edge_of_tag : GpioEdgeTag → HalResult GpioEdge
edge_of_tag gpio_edge_rising = ok rising
edge_of_tag gpio_edge_falling = ok falling
edge_of_tag gpio_edge_unspecified = err (invalid_message "gpio_edge_event.edge is required")

-- `gpio_edge_event_from_proto`
unfoldable pub gpio_edge_event_from_proto : GpioEdgeEventMessage → HalResult GpioEdgeEvent
unfolding required_enum invalid_message
gpio_edge_event_from_proto m = do
  edge ← required_enum m.edge "gpio_edge_event.edge" >>= edge_of_tag
  fail_if (eqb m.sequence 0) (invalid_message "gpio_edge_event.sequence must be greater than zero")
  ok (record { edge = edge; monotonic_ns = m.monotonic_ns; sequence = m.sequence })

abbrev pub edge_to_proto : GpioEdge → GpioEdgeTag
edge_to_proto rising = gpio_edge_rising
edge_to_proto falling = gpio_edge_falling

-- `From<&GpioEdgeEvent>`
abbrev pub gpio_edge_event_to_proto : GpioEdgeEvent → GpioEdgeEventMessage
gpio_edge_event_to_proto e = record {
  edge = as_i32 (edge_to_proto e.edge);
  monotonic_ns = e.monotonic_ns;
  sequence = e.sequence;
}
