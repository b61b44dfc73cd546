-- ===== src/Can/Frame.antt =====
-- crates/robot-hal-can/src/frame.rs: CAN identifiers, frames, timestamps and batch errors.
-- A `Bytes` buffer is the list of its bytes.
use robot_hal.Prelude.{
  ℕ, ◌≤◌, ◌<◌, ◌≡◌, ◌↔◌, ◌⊎◌, String, Bool, true, false, not, ◌||◌, Option, none, some, List, [],
  ◌∷◌, arith, length, ltb, leb, eqb, is_empty, is_ascii, byte_len,
}
use robot_hal.Core.Names.{invalid_argument}
use robot_hal.Core.Error.{HalError, HalResult, ok, ◌>>◌, fail_if, build_error}

abbrev max_classic_data_bytes : ℕ
max_classic_data_bytes = 8

abbrev max_can_error_classes : ℕ
max_can_error_classes = 10

abbrev invalid_frame : String → HalError
invalid_frame message = build_error "can.frame.invalid" invalid_argument "can.frame" false message

pub data CanId : Type 0 where
  standard extended : ℕ → CanId

unfoldable validate_id : CanId → HalResult (Unit {0})
validate_id (standard value) =
    fail_if (ltb 0x7ff value) (invalid_frame "standard CAN identifier exceeds 11 bits")
validate_id (extended value) =
    fail_if (ltb 0x1fff_ffff value) (invalid_frame "extended CAN identifier exceeds 29 bits")

-- `matches!(length, 0..=8 | 12 | 16 | 20 | 24 | 32 | 48 | 64)`
unfoldable pub valid_fd_data_length : ℕ → Bool
valid_fd_data_length n =
    leb n 8
    || (eqb n 12 || (eqb n 16 || (eqb n 20 || (eqb n 24 || (eqb n 32 || (eqb n 48 || eqb n 64))))))

-- `CanId::standard` and `CanId::extended`
unfoldable pub standard_id : ℕ → HalResult CanId
standard_id value = do
  fail_if (ltb 0x7ff value) (invalid_frame "standard CAN identifier exceeds 11 bits")
  ok (standard value)

unfoldable pub extended_id : ℕ → HalResult CanId
extended_id value = do
  fail_if (ltb 0x1fff_ffff value) (invalid_frame "extended CAN identifier exceeds 29 bits")
  ok (extended value)

abbrev pub id_value : CanId → ℕ
id_value (standard value) = value
id_value (extended value) = value

abbrev pub is_standard : CanId → Bool
is_standard (standard value) = true
is_standard (extended value) = false

abbrev is_extended : CanId → Bool
is_extended (standard value) = false
is_extended (extended value) = true

pub data CanErrorClass : Type 0 where
  tx_timeout lost_arbitration controller protocol transceiver no_acknowledgement bus_off bus_error
        restarted other :
      CanErrorClass

pub data CanFrame : Type 0 where
  classic_data : CanId → List ℕ → CanFrame
  classic_remote : CanId → ℕ → CanFrame
  fd_data : CanId → List ℕ → Bool → Bool → CanFrame
  error : List CanErrorClass → List ℕ → CanFrame

abbrev pub is_nil {ℓ} : {A : Type ℓ} → List A → Bool
is_nil [] = true
is_nil _ = false

-- The checks that a constructor and `CanFrame::validate` share, each written out in both.
unfoldable pub new_classic_data : CanId → List ℕ → HalResult CanFrame
unfolding validate_id
new_classic_data id payload = do
  validate_id id
  fail_if (ltb max_classic_data_bytes (length payload))
      (invalid_frame "Classical CAN data exceeds 8 bytes")
  ok (classic_data id payload)

unfoldable pub new_classic_remote : CanId → ℕ → HalResult CanFrame
unfolding validate_id
new_classic_remote id dlc = do
  validate_id id
  fail_if (ltb max_classic_data_bytes dlc) (invalid_frame "Classical CAN remote DLC exceeds 8")
  ok (classic_remote id dlc)

unfoldable pub new_fd_data : CanId → List ℕ → Bool → Bool → HalResult CanFrame
unfolding validate_id
new_fd_data id payload bitrate_switch error_state = do
  validate_id id
  fail_if (not (valid_fd_data_length (length payload)))
      (invalid_frame "CAN FD data length must be one of 0..=8, 12, 16, 20, 24, 32, 48, or 64")
  ok (fd_data id payload bitrate_switch error_state)

unfoldable pub new_error_frame : List CanErrorClass → List ℕ → HalResult CanFrame
new_error_frame classes payload = do
  fail_if (is_nil classes || ltb max_can_error_classes (length classes))
      (invalid_frame "CAN error frame must contain 1..=10 classes")
  fail_if (ltb max_classic_data_bytes (length payload))
      (invalid_frame "CAN error diagnostics exceed 8 bytes")
  ok (error classes payload)

-- `CanFrame::validate`
unfoldable pub validate_frame : CanFrame → HalResult (Unit {0})
unfolding validate_id
validate_frame (classic_data id payload) = do
  validate_id id
  fail_if (ltb max_classic_data_bytes (length payload))
      (invalid_frame "Classical CAN data exceeds 8 bytes")
validate_frame (classic_remote id dlc) = do
  validate_id id
  fail_if (ltb max_classic_data_bytes dlc) (invalid_frame "Classical CAN remote DLC exceeds 8")
validate_frame (fd_data id payload bitrate_switch error_state) = do
  validate_id id
  fail_if (not (valid_fd_data_length (length payload)))
      (invalid_frame "CAN FD data length must be one of 0..=8, 12, 16, 20, 24, 32, 48, or 64")
validate_frame (error classes payload) = do
  fail_if (is_nil classes || ltb max_can_error_classes (length classes))
      (invalid_frame "CAN error frame must contain 1..=10 classes")
  fail_if (ltb max_classic_data_bytes (length payload))
      (invalid_frame "CAN error diagnostics exceed 8 bytes")

abbrev frame_id : CanFrame → Option CanId
frame_id (classic_data id payload) = some id
frame_id (classic_remote id dlc) = some id
frame_id (fd_data id payload brs esi) = some id
frame_id (error classes payload) = none

-- `CanFrame::data`
abbrev frame_bytes : CanFrame → List ℕ
frame_bytes (classic_data id payload) = payload
frame_bytes (classic_remote id dlc) = []
frame_bytes (fd_data id payload brs esi) = payload
frame_bytes (error classes payload) = payload

abbrev frame_dlc : CanFrame → Option ℕ
frame_dlc (classic_remote id dlc) = some dlc
frame_dlc _ = none

abbrev is_error : CanFrame → Bool
is_error (error classes payload) = true
is_error _ = false

abbrev is_remote : CanFrame → Bool
is_remote (classic_remote id dlc) = true
is_remote _ = false

abbrev is_data : CanFrame → Bool
is_data (classic_data id payload) = true
is_data (fd_data id payload brs esi) = true
is_data _ = false

-- Building a frame again from the parts of a given one.
abbrev rebuild : CanFrame → HalResult CanFrame
rebuild (classic_data id payload) = new_classic_data id payload
rebuild (classic_remote id dlc) = new_classic_remote id dlc
rebuild (fd_data id payload brs esi) = new_fd_data id payload brs esi
rebuild (error classes payload) = new_error_frame classes payload

pub data CanTimestampSource : Type 0 where
  hardware kernel host_monotonic : CanTimestampSource

pub record CanTimestamp : Type 0 where
  pub timestamp_ns : ℕ
  pub source : CanTimestampSource
  pub clock_domain : String

unfoldable pub new_timestamp : ℕ → CanTimestampSource → String → HalResult CanTimestamp
new_timestamp ns source domain = do
  fail_if (is_empty domain) (invalid_frame "CAN timestamp clock domain must not be empty")
  fail_if (ltb 255 (byte_len domain)) (invalid_frame "CAN timestamp clock domain exceeds 255 bytes")
  fail_if (not (is_ascii domain)) (invalid_frame "CAN timestamp clock domain must be ASCII")
  ok (record { timestamp_ns = ns; source = source; clock_domain = domain })

-- `validate` accepts a frame exactly when the constructor of its kind, given the frame's parts,
-- returns that frame.
validate_frame_iff : (f : CanFrame) → (validate_frame f ≡ ok tt) ↔ (rebuild f ≡ ok f)
unfolding validate_frame new_classic_data new_classic_remote new_fd_data new_error_frame
validate_frame_iff (classic_data id payload) = ground arith
validate_frame_iff (classic_remote id dlc) = ground arith
validate_frame_iff (fd_data id payload brs esi) = ground arith
validate_frame_iff (error classes payload) = ground arith

abbrev pub IdFits : CanId → Type 0
IdFits (standard value) = value < 2048
IdFits (extended value) = value < 536870912

-- The payload lengths that a CAN FD frame can carry.
abbrev FdLength : ℕ → Type 0
FdLength n = (n ≤ 8) ⊎ (n ≡ 12) ⊎ (n ≡ 16) ⊎ (n ≡ 20) ⊎ (n ≡ 24) ⊎ (n ≡ 32) ⊎ (n ≡ 48) ⊎ (n ≡ 64)

-- What the CAN bus can carry.
abbrev pub IsLegal : CanFrame → Type 0
IsLegal (classic_data id payload) = IdFits id × (length payload ≤ 8)
IsLegal (classic_remote id dlc) = IdFits id × (dlc ≤ 8)
IsLegal (fd_data id payload brs esi) = IdFits id × FdLength (length payload)
IsLegal (error classes payload) =
    (1 ≤ length classes) × (length classes ≤ 10) × (length payload ≤ 8)

-- `validate` accepts a frame exactly when it is legal: an 11 or 29 bit identifier, at most 8 bytes
-- or a DLC of at most 8 for the classic kinds, one of the CAN FD lengths, and 1 to 10 classes with
-- at most 8 bytes for an error frame.
validate_frame-IsLegal : (f : CanFrame) → (validate_frame f ≡ ok tt) ↔ IsLegal f
unfolding validate_frame valid_fd_data_length
validate_frame-IsLegal (classic_data (standard v) payload) = ground arith
validate_frame-IsLegal (classic_data (extended v) payload) = ground arith
validate_frame-IsLegal (classic_remote (standard v) dlc) = ground arith
validate_frame-IsLegal (classic_remote (extended v) dlc) = ground arith
validate_frame-IsLegal (fd_data (standard v) payload brs esi) = ground arith
validate_frame-IsLegal (fd_data (extended v) payload brs esi) = ground arith
validate_frame-IsLegal (error [] payload) = ground arith
validate_frame-IsLegal (error (c ∷ classes) payload) = ground arith

pub record ReceivedCanFrame : Type 0 where
  pub frame : CanFrame
  pub timestamp : Option CanTimestamp

pub record CanBatchSendError : Type 0 where
  pub error : HalError
  pub committed : ℕ
