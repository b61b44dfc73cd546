-- ===== src/Protocol/DeviceEnums.antt =====
-- Enumerations of proto/seeed/hal/v1/hal.proto, with the numbers that stand for them in a message. A
-- constructor is the name of its value without the name of the enumeration.
use robot_hal.Prelude.{ℕ, ◌≡◌, ◌↔◌, Option, none, some, arith, eqb, if◌then◌else◌}
use robot_hal.Protocol.Wire.{WireEnum}

pub data UsbTransferKindTag : Type 0 where
  usb_transfer_kind_unspecified usb_transfer_kind_control_out usb_transfer_kind_control_in
        usb_transfer_kind_bulk_out usb_transfer_kind_bulk_in usb_transfer_kind_interrupt_out
        usb_transfer_kind_interrupt_in :
      UsbTransferKindTag

abbrev usb_transfer_kind_number : UsbTransferKindTag → ℕ
usb_transfer_kind_number usb_transfer_kind_unspecified = 0
usb_transfer_kind_number usb_transfer_kind_control_out = 1
usb_transfer_kind_number usb_transfer_kind_control_in = 2
usb_transfer_kind_number usb_transfer_kind_bulk_out = 3
usb_transfer_kind_number usb_transfer_kind_bulk_in = 4
usb_transfer_kind_number usb_transfer_kind_interrupt_out = 5
usb_transfer_kind_number usb_transfer_kind_interrupt_in = 6

unfoldable pub usb_transfer_kind_of : ℕ → Option UsbTransferKindTag
usb_transfer_kind_of n =
    if eqb n 0
    then some usb_transfer_kind_unspecified
    else if eqb n 1
    then some usb_transfer_kind_control_out
    else if eqb n 2
    then some usb_transfer_kind_control_in
    else if eqb n 3
    then some usb_transfer_kind_bulk_out
    else if eqb n 4
    then some usb_transfer_kind_bulk_in
    else if eqb n 5
    then some usb_transfer_kind_interrupt_out
    else if eqb n 6
    then some usb_transfer_kind_interrupt_in
    else none

pub usb_transfer_kind_iff :
    (n : ℕ) (a : UsbTransferKindTag)
    → (usb_transfer_kind_of n ≡ some a) ↔ (n ≡ usb_transfer_kind_number a)
unfolding usb_transfer_kind_of
usb_transfer_kind_iff n usb_transfer_kind_unspecified = ground arith
usb_transfer_kind_iff n usb_transfer_kind_control_out = ground arith
usb_transfer_kind_iff n usb_transfer_kind_control_in = ground arith
usb_transfer_kind_iff n usb_transfer_kind_bulk_out = ground arith
usb_transfer_kind_iff n usb_transfer_kind_bulk_in = ground arith
usb_transfer_kind_iff n usb_transfer_kind_interrupt_out = ground arith
usb_transfer_kind_iff n usb_transfer_kind_interrupt_in = ground arith

instance abbrev pub usb_transfer_kind_wire : WireEnum UsbTransferKindTag
usb_transfer_kind_wire = record {
  number = usb_transfer_kind_number;
  of_number = usb_transfer_kind_of;
  of_number_iff = usb_transfer_kind_iff;
}

pub data GpioBiasTag : Type 0 where
  gpio_bias_unspecified gpio_bias_disabled gpio_bias_pull_up gpio_bias_pull_down : GpioBiasTag

abbrev gpio_bias_number : GpioBiasTag → ℕ
gpio_bias_number gpio_bias_unspecified = 0
gpio_bias_number gpio_bias_disabled = 1
gpio_bias_number gpio_bias_pull_up = 2
gpio_bias_number gpio_bias_pull_down = 3

unfoldable pub gpio_bias_of : ℕ → Option GpioBiasTag
gpio_bias_of n =
    if eqb n 0
    then some gpio_bias_unspecified
    else if eqb n 1
    then some gpio_bias_disabled
    else if eqb n 2
    then some gpio_bias_pull_up
    else if eqb n 3
    then some gpio_bias_pull_down
    else none

pub gpio_bias_iff : (n : ℕ) (a : GpioBiasTag) → (gpio_bias_of n ≡ some a) ↔ (n ≡ gpio_bias_number a)
unfolding gpio_bias_of
gpio_bias_iff n gpio_bias_unspecified = ground arith
gpio_bias_iff n gpio_bias_disabled = ground arith
gpio_bias_iff n gpio_bias_pull_up = ground arith
gpio_bias_iff n gpio_bias_pull_down = ground arith

instance abbrev pub gpio_bias_wire : WireEnum GpioBiasTag
gpio_bias_wire = record {
  number = gpio_bias_number;
  of_number = gpio_bias_of;
  of_number_iff = gpio_bias_iff;
}

pub data GpioDriveTag : Type 0 where
  gpio_drive_unspecified gpio_drive_push_pull gpio_drive_open_drain gpio_drive_open_source :
      GpioDriveTag

abbrev gpio_drive_number : GpioDriveTag → ℕ
gpio_drive_number gpio_drive_unspecified = 0
gpio_drive_number gpio_drive_push_pull = 1
gpio_drive_number gpio_drive_open_drain = 2
gpio_drive_number gpio_drive_open_source = 3

unfoldable pub gpio_drive_of : ℕ → Option GpioDriveTag
gpio_drive_of n =
    if eqb n 0
    then some gpio_drive_unspecified
    else if eqb n 1
    then some gpio_drive_push_pull
    else if eqb n 2
    then some gpio_drive_open_drain
    else if eqb n 3
    then some gpio_drive_open_source
    else none

pub gpio_drive_iff :
    (n : ℕ) (a : GpioDriveTag) → (gpio_drive_of n ≡ some a) ↔ (n ≡ gpio_drive_number a)
unfolding gpio_drive_of
gpio_drive_iff n gpio_drive_unspecified = ground arith
gpio_drive_iff n gpio_drive_push_pull = ground arith
gpio_drive_iff n gpio_drive_open_drain = ground arith
gpio_drive_iff n gpio_drive_open_source = ground arith

instance abbrev pub gpio_drive_wire : WireEnum GpioDriveTag
gpio_drive_wire = record {
  number = gpio_drive_number;
  of_number = gpio_drive_of;
  of_number_iff = gpio_drive_iff;
}

pub data GpioDirectionTag : Type 0 where
  gpio_direction_unspecified gpio_direction_input gpio_direction_output : GpioDirectionTag

abbrev gpio_direction_number : GpioDirectionTag → ℕ
gpio_direction_number gpio_direction_unspecified = 0
gpio_direction_number gpio_direction_input = 1
gpio_direction_number gpio_direction_output = 2

unfoldable pub gpio_direction_of : ℕ → Option GpioDirectionTag
gpio_direction_of n =
    if eqb n 0
    then some gpio_direction_unspecified
    else if eqb n 1
    then some gpio_direction_input
    else if eqb n 2
    then some gpio_direction_output
    else none

pub gpio_direction_iff :
    (n : ℕ) (a : GpioDirectionTag) → (gpio_direction_of n ≡ some a) ↔ (n ≡ gpio_direction_number a)
unfolding gpio_direction_of
gpio_direction_iff n gpio_direction_unspecified = ground arith
gpio_direction_iff n gpio_direction_input = ground arith
gpio_direction_iff n gpio_direction_output = ground arith

instance abbrev pub gpio_direction_wire : WireEnum GpioDirectionTag
gpio_direction_wire = record {
  number = gpio_direction_number;
  of_number = gpio_direction_of;
  of_number_iff = gpio_direction_iff;
}

pub data GpioEdgeTag : Type 0 where
  gpio_edge_unspecified gpio_edge_rising gpio_edge_falling : GpioEdgeTag

abbrev gpio_edge_number : GpioEdgeTag → ℕ
gpio_edge_number gpio_edge_unspecified = 0
gpio_edge_number gpio_edge_rising = 1
gpio_edge_number gpio_edge_falling = 2

unfoldable pub gpio_edge_of : ℕ → Option GpioEdgeTag
gpio_edge_of n =
    if eqb n 0
    then some gpio_edge_unspecified
    else if eqb n 1
    then some gpio_edge_rising
    else if eqb n 2
    then some gpio_edge_falling
    else none

pub gpio_edge_iff : (n : ℕ) (a : GpioEdgeTag) → (gpio_edge_of n ≡ some a) ↔ (n ≡ gpio_edge_number a)
unfolding gpio_edge_of
gpio_edge_iff n gpio_edge_unspecified = ground arith
gpio_edge_iff n gpio_edge_rising = ground arith
gpio_edge_iff n gpio_edge_falling = ground arith

instance abbrev pub gpio_edge_wire : WireEnum GpioEdgeTag
gpio_edge_wire = record {
  number = gpio_edge_number;
  of_number = gpio_edge_of;
  of_number_iff = gpio_edge_iff;
}
