-- ===== src/Protocol/GpioLines/Inverse.antt =====
-- GPIO line configurations, edge requests and edge events between
-- crates/robot-hal-protocol/src/conversion.rs and the client.
use robot_hal.Prelude.{ℕ, ◌≡◌, ◌↔◌, ◌≤◌, ◌⊎◌, inl, inr, refl, Bool, arith, sym, subst}
use robot_hal.Core.Error.{ok, ◌>>=◌, ok_or}
use robot_hal.Protocol.GpioLines.{
  GpioEdgeEventMessage, GpioLineConfigMessage, bias_of_tag, config_of_direction, drive_of_tag,
  edge_of_tag, edge_to_proto, gpio_config_from_proto, gpio_config_to_proto,
  gpio_edge_event_from_proto, gpio_edge_event_to_proto, gpio_edge_request_from_proto,
  next_edge_fields,
}
use robot_hal.Protocol.Wire.{>>=-eq-ok, Inverts, invalid_message, ok_inj, required_enum}
use robot_hal.Protocol.DeviceEnums.{
  GpioDirectionTag, GpioEdgeTag, gpio_bias_of, gpio_direction_input, gpio_direction_of,
  gpio_direction_output, gpio_direction_unspecified, gpio_drive_of, gpio_edge_of,
  gpio_direction_wire, gpio_edge_wire, gpio_drive_wire, gpio_bias_wire,
}
use robot_hal.Devices.Gpio.{
  GpioBias, GpioDrive, GpioEdge, GpioEdgeEvent, GpioLineConfig, disabled, falling, input_config,
  mask_contains, open_drain, open_source, output_config, pull_down, pull_up, push_pull, rising,
}

-- What `GpioLineConfig::input` and `output` build.
abbrev IsBuilt : GpioLineConfig → Type 0
IsBuilt c =
    ((bias : GpioBias) × (c ≡ input_config c.active_low bias))
    ⊎ ((value : Bool) × (drive : GpioDrive) × (c ≡ output_config c.active_low value drive))

input_returns :
    (active_low : Bool) (bias : GpioBias)
    → gpio_config_from_proto (gpio_config_to_proto (input_config active_low bias))
      ≡ ok (input_config active_low bias)
unfolding gpio_config_from_proto gpio_direction_of gpio_bias_of gpio_drive_of
input_returns active_low disabled = refl
input_returns active_low pull_up = refl
input_returns active_low pull_down = refl

output_returns :
    (active_low value : Bool) (drive : GpioDrive)
    → gpio_config_from_proto (gpio_config_to_proto (output_config active_low value drive))
      ≡ ok (output_config active_low value drive)
unfolding gpio_config_from_proto gpio_direction_of gpio_bias_of gpio_drive_of
output_returns active_low value push_pull = refl
output_returns active_low value open_drain = refl
output_returns active_low value open_source = refl

arm_builds :
    (m : GpioLineConfigMessage) (bias : GpioBias) (d : GpioDirectionTag) (c : GpioLineConfig)
    → config_of_direction m bias d ≡ ok c
    → IsBuilt c
arm_builds m bias gpio_direction_unspecified c h = absurd (ground arith)
arm_builds m bias gpio_direction_input c h = inl (bias, ground arith)
arm_builds m bias gpio_direction_output c h =
    let (drive, p, h1) =
      >>=-eq-ok (required_enum m.drive "gpio_config.drive" >>= drive_of_tag) _ h in
    let (value, q, h2) =
      >>=-eq-ok
        (ok_or m.initial_value (invalid_message "gpio_config.initial_value is required for output"))
        _ h1 in
    inr (value, drive, ground (arith, ok_inj h2))

config_builds :
    (m : GpioLineConfigMessage) (c : GpioLineConfig) → gpio_config_from_proto m ≡ ok c → IsBuilt c
unfolding gpio_config_from_proto
config_builds m c h =
    let (d, p, h1) = >>=-eq-ok (required_enum m.direction "gpio_config.direction") _ h in
    let (bias, q, h2) = >>=-eq-ok (required_enum m.bias "gpio_config.bias" >>= bias_of_tag) _ h1 in
    arm_builds m bias d c h2

built_returns :
    (c : GpioLineConfig) → IsBuilt c → gpio_config_from_proto (gpio_config_to_proto c) ≡ ok c
built_returns c (inl (bias, e)) =
    subst (λ x. gpio_config_from_proto (gpio_config_to_proto x) ≡ ok x) (sym e)
      (input_returns c.active_low bias)
built_returns c (inr (value, drive, e)) =
    subst (λ x. gpio_config_from_proto (gpio_config_to_proto x) ≡ ok x) (sym e)
      (output_returns c.active_low value drive)

-- The configurations that survive encoding and decoding are exactly those that the constructors for
-- inputs and outputs build, and no message decodes to any other configuration.
gpio_config_round_trip :
    (m : GpioLineConfigMessage) (c d : GpioLineConfig)
    → gpio_config_from_proto m ≡ ok d
    → ((gpio_config_from_proto (gpio_config_to_proto c) ≡ ok c) ↔ IsBuilt c) × IsBuilt d
gpio_config_round_trip m c d h =
    ((config_builds (gpio_config_to_proto c) c, built_returns c), config_builds m d h)

abbrev Arrives : ℕ → ℕ → Type 0
Arrives capacity edges =
    (gpio_edge_request_from_proto (next_edge_fields (record { edges = edges; capacity = capacity }))
      ≡ ok (record { edges = edges; capacity = capacity }))
    ↔ ((1 ≤ capacity) × (capacity ≤ 1024))

rising-Arrives : (capacity : ℕ) → Arrives capacity 1
unfolding gpio_edge_request_from_proto mask_contains
rising-Arrives capacity = ground arith

falling-Arrives : (capacity : ℕ) → Arrives capacity 2
unfolding gpio_edge_request_from_proto mask_contains
falling-Arrives capacity = ground arith

both_arrive : (capacity : ℕ) → Arrives capacity 3
unfolding gpio_edge_request_from_proto mask_contains
both_arrive capacity = ground arith

one_of_three : (edges : ℕ) → 1 ≤ edges → edges ≤ 3 → (edges ≡ 1) ⊎ ((edges ≡ 2) ⊎ (edges ≡ 3))
one_of_three edges few many = ground arith

-- An edge request with a mask of one or both edges arrives as the client made it exactly when its
-- capacity is 1 to 1024, the bounds of `GpioEdgeRequest::new`.
edge_request_round_trip :
    (edges capacity : ℕ)
    → 1 ≤ edges
    → edges ≤ 3
    → (gpio_edge_request_from_proto
          (next_edge_fields (record { edges = edges; capacity = capacity }))
        ≡ ok (record { edges = edges; capacity = capacity }))
      ↔ ((1 ≤ capacity) × (capacity ≤ 1024))
edge_request_round_trip edges capacity few many = elim (one_of_three edges few many) [
  | inl e ↦ subst (Arrives capacity) (sym e) (rising-Arrives capacity)
  | inr (inl e) ↦ subst (Arrives capacity) (sym e) (falling-Arrives capacity)
  | inr (inr e) ↦ subst (Arrives capacity) (sym e) (both_arrive capacity)
]

edge_translates : (t : GpioEdgeTag) (e : GpioEdge) → (edge_of_tag t ≡ ok e) ↔ (t ≡ edge_to_proto e)
edge_translates t rising = ground arith
edge_translates t falling = ground arith

event_accepts :
    (m : GpioEdgeEventMessage) (e : GpioEdgeEvent)
    → gpio_edge_event_from_proto m ≡ ok e
    → (m ≡ gpio_edge_event_to_proto e) × (1 ≤ e.sequence)
unfolding gpio_edge_event_from_proto gpio_edge_of
event_accepts m e h = ground arith

event_returns :
    (e : GpioEdgeEvent)
    → 1 ≤ e.sequence
    → gpio_edge_event_from_proto (gpio_edge_event_to_proto e) ≡ ok e
unfolding gpio_edge_event_from_proto gpio_edge_of
event_returns e h = ground arith

event_inverts : Inverts gpio_edge_event_from_proto gpio_edge_event_to_proto (λ e. 1 ≤ e.sequence)
event_inverts = record { accepts = event_accepts; returns = event_returns }
