-- ===== src/Devices/Usb/Valid.antt =====
-- Which USB transfers `UsbTransfer::validate` of crates/robot-hal-usb/src/lib.rs accepts.
use robot_hal.Prelude.{
  ℕ, zero, suc, ◌≡◌, ◌≢◌, ◌↔◌, ◌≤◌, ◌<◌, ◌%◌, refl, Bool, true, false, not, ◌&&◌, List, length,
  arith, bit_and, eqb, leb, if◌then◌else◌,
}
use robot_hal.Core.Error.{ok}
use robot_hal.Devices.Usb.{
  control_out, control_in, bulk_out, bulk_in, interrupt_out, interrupt_in, validate_transfer,
  is_input,
}

agrees : Bool → Bool → Bool
agrees true b = b
agrees false b = not b

-- The bits of a byte that the validation reads, as arithmetic.
reads_bits : ℕ → Bool
unfolding agrees
reads_bits x = agrees (is_input x) (leb 128 x) && agrees (eqb (bit_and x 0x0f) 0) (eqb (x % 16) 0)

all_read : ℕ → Bool
unfolding reads_bits
all_read zero = true
all_read (suc n) = if reads_bits n then all_read n else false

all_read_sound : (n x : ℕ) → all_read n ≡ true → x < n → reads_bits x ≡ true
unfolding all_read
all_read_sound zero x h below = absurd (omega arith)
all_read_sound (suc n) x h below = ground (arith, all_read_sound n x)

byte_table : all_read 256 ≡ true
unfolding all_read
byte_table = refl

byte_bits : (x : ℕ) → x < 256 → (is_input x ≡ leb 128 x) × ((bit_and x 0x0f ≡ 0) ↔ (x % 16 ≡ 0))
unfolding reads_bits
byte_bits x below = ground (arith, all_read_sound 256 x byte_table below)

-- The endpoint of a transfer: its number is 1 to 15, and its highest bit tells an input.
abbrev IsOutEndpoint : ℕ → Type 0
IsOutEndpoint e = (e < 128) × (e % 16 ≢ 0)

abbrev IsInEndpoint : ℕ → Type 0
IsInEndpoint e = (128 ≤ e) × (e % 16 ≢ 0)

-- A transfer with bytes in its byte fields is accepted exactly when the highest bit of its request
-- type, or of its endpoint, tells its direction, the lowest four bits of its endpoint are not all 0,
-- and it moves at most 16384 bytes.
validate_transfer_iff :
    (request_type request value index endpoint max_bytes : ℕ) (payload : List ℕ)
    → request_type < 256
    → endpoint < 256
    → ((validate_transfer (control_out request_type request value index payload) ≡ ok tt)
        ↔ ((request_type < 128) × (length payload ≤ 16384)))
      × ((validate_transfer (control_in request_type request value index max_bytes) ≡ ok tt)
          ↔ ((128 ≤ request_type) × (max_bytes ≤ 16384)))
      × ((validate_transfer (bulk_out endpoint payload) ≡ ok tt)
          ↔ (IsOutEndpoint endpoint × (length payload ≤ 16384)))
      × ((validate_transfer (bulk_in endpoint max_bytes) ≡ ok tt)
          ↔ (IsInEndpoint endpoint × (max_bytes ≤ 16384)))
      × ((validate_transfer (interrupt_out endpoint payload) ≡ ok tt)
          ↔ (IsOutEndpoint endpoint × (length payload ≤ 16384)))
      × ((validate_transfer (interrupt_in endpoint max_bytes) ≡ ok tt)
          ↔ (IsInEndpoint endpoint × (max_bytes ≤ 16384)))
unfolding validate_transfer
validate_transfer_iff request_type request value index endpoint max_bytes payload h k =
    ground (arith, byte_bits request_type h, byte_bits endpoint k)
