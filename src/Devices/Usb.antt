-- ===== src/Devices/Usb.antt =====
-- crates/robot-hal-usb/src/lib.rs: interface claims and transfers. A `Bytes` buffer is the list of
-- its bytes; a `u8` is a number below 256.
mod Valid
use robot_hal.Prelude.{
  ℕ, ◌*◌, ◌%◌, String, Bool, true, false, not, ◌||◌, List, length, ltb, eqb, bit_and,
}
use robot_hal.Core.Names.{invalid_argument}
use robot_hal.Core.Error.{HalError, HalResult, ok, ◌>>◌, fail_if, build_error}

abbrev max_usb_transfer_bytes : ℕ
max_usb_transfer_bytes = 16 * 1024

abbrev max_usb_interface_number : ℕ
max_usb_interface_number = 255

-- `UsbInterfaceClaim` is the number of the interface; `UsbInterfaceClaim::new`.
unfoldable new_interface_claim : ℕ → HalResult ℕ
new_interface_claim interface = do
  fail_if (ltb max_usb_interface_number interface) (
      build_error "usb.interface.invalid" invalid_argument "usb.interface_claim" false
        "USB interface number is outside the u8 range")
  ok (interface % 256)

pub data UsbTransfer : Type 0 where
  control_out : ℕ → ℕ → ℕ → ℕ → List ℕ → UsbTransfer
  control_in : ℕ → ℕ → ℕ → ℕ → ℕ → UsbTransfer
  bulk_out : ℕ → List ℕ → UsbTransfer
  bulk_in : ℕ → ℕ → UsbTransfer
  interrupt_out : ℕ → List ℕ → UsbTransfer
  interrupt_in : ℕ → ℕ → UsbTransfer

unfoldable pub invalid_transfer : String → HalError
invalid_transfer message =
    build_error "usb.transfer.invalid" invalid_argument "usb.transfer" false message

-- `x & 0x80 != 0`
abbrev pub is_input : ℕ → Bool
is_input x = not (eqb (bit_and x 0x80) 0)

abbrev differ : Bool → Bool → Bool
differ true b = not b
differ false b = b

abbrev validate_control_direction : ℕ → Bool → HalResult (Unit {0})
validate_control_direction request_type input =
    fail_if (differ (is_input request_type) input)
      (invalid_transfer "control request direction does not match transfer")

abbrev validate_endpoint : ℕ → Bool → HalResult (Unit {0})
validate_endpoint endpoint input =
    fail_if (eqb (bit_and endpoint 0x0f) 0 || differ (is_input endpoint) input)
      (invalid_transfer "endpoint direction or number is invalid")

abbrev validate_size : ℕ → HalResult (Unit {0})
validate_size size =
    fail_if (ltb max_usb_transfer_bytes size)
      (invalid_transfer "transfer payload exceeds the bound")

-- `UsbTransfer::validate`
unfoldable pub validate_transfer : UsbTransfer → HalResult (Unit {0})
validate_transfer (control_out request_type request value index payload) = do
  validate_control_direction request_type false
  validate_size (length payload)
validate_transfer (control_in request_type request value index max_bytes) = do
  validate_control_direction request_type true
  validate_size max_bytes
validate_transfer (bulk_out endpoint payload) = do
  validate_endpoint endpoint false
  validate_size (length payload)
validate_transfer (interrupt_out endpoint payload) = do
  validate_endpoint endpoint false
  validate_size (length payload)
validate_transfer (bulk_in endpoint max_bytes) = do
  validate_endpoint endpoint true
  validate_size max_bytes
validate_transfer (interrupt_in endpoint max_bytes) = do
  validate_endpoint endpoint true
  validate_size max_bytes

-- `control_out`, `control_in`, `bulk_out`, `bulk_in`, `interrupt_out` and `interrupt_in` build a
-- transfer of their kind and return it if it is valid.
unfoldable pub validated : UsbTransfer → HalResult UsbTransfer
validated transfer = do validate_transfer transfer; ok transfer
