-- ===== src/Camera/Layout.antt =====
-- adapters/shared-memory/src/layout.rs: the layout of the shared ring and of the planes of a frame.
-- A `usize` has 64 bits. The tokens and the identity of a mapping are bytes drawn at random or
-- hashed by other libraries; they are not modelled here.
pub mod Slots
pub mod Planes
use robot_hal.Prelude.{
  ℕ, ◌+◌, ◌-◌, ◌*◌, ◌/◌, ◌%◌, String, Bool, true, false, not, ◌&&◌, ◌||◌, none, some, List, [], ◌∷◌,
  map, length, ltb, leb, eqb, if◌then◌else◌,
}
use robot_hal.Core.Names.{invalid_argument}
use robot_hal.Core.Lease.{u64_max}
use robot_hal.Core.Error.{HalError, HalResult, ok, ◌>>=◌, ◌>>◌, fail_if, ok_or, build_error}
use robot_hal.Camera.Format.{
  PixelFormat, nv12, yuyv, mjpeg, CameraFormat, validate_format, worst_case_frame_bytes,
  max_camera_width, max_camera_height, max_camera_frame_bytes, min_camera_slot_count,
  max_camera_slot_count, checked_add, checked_mul,
}

abbrev pub max_mapping_bytes : ℕ
max_mapping_bytes = 268435456

abbrev pub header_bytes : ℕ
header_bytes = 192

abbrev pub slot_header_bytes : ℕ
slot_header_bytes = 128

abbrev pub slot_alignment : ℕ
slot_alignment = 64

abbrev pub max_planes : ℕ
max_planes = 3

abbrev pub u32_max : ℕ
u32_max = 4294967295

abbrev pub invalid : String → String → HalError
invalid operation message =
    build_error "shared_memory.invalid" invalid_argument operation false message

pub record PlaneLayout : Type 0 where
  pub offset : ℕ
  pub length : ℕ
  pub stride : ℕ

-- `PlaneLayout::new`, with its `u32::try_from` and its `u32::checked_add`
unfoldable pub new_plane : ℕ → ℕ → ℕ → HalResult PlaneLayout
new_plane offset length stride = do
  fail_if (ltb u32_max offset) (invalid "shared_memory.plane" "plane offset exceeds layout range")
  fail_if (ltb u32_max length) (invalid "shared_memory.plane" "plane length exceeds layout range")
  fail_if (ltb u32_max stride) (invalid "shared_memory.plane" "plane stride exceeds layout range")
  fail_if (eqb length 0 || eqb stride 0)
      (invalid "shared_memory.plane" "plane length and stride must be non-zero")
  fail_if (ltb u32_max (offset + length)) (invalid "shared_memory.plane" "plane range overflows")
  ok (record { offset = offset; length = length; stride = stride })

unfoldable pub align_up : ℕ → ℕ → HalResult ℕ
align_up value alignment = do
  padded ←
      ok_or (checked_add value (alignment - 1))
        (invalid "shared_memory.layout" "alignment overflows")
  ok (padded / alignment * alignment)

pub record RingConfig : Type 0 where
  pub format : CameraFormat
  pub slot_count : ℕ
  pub payload_capacity : ℕ
  pub slot_stride : ℕ
  pub total_length : ℕ

-- `RingConfig::new`
unfoldable pub new_ring_config : CameraFormat → ℕ → ℕ → HalResult RingConfig
unfolding align_up
new_ring_config format slot_count payload_capacity = do
  validate_format format
  fail_if (ltb slot_count min_camera_slot_count || ltb max_camera_slot_count slot_count)
      (invalid "shared_memory.config" "slot count must be within the inclusive public range")
  worst ← worst_case_frame_bytes format
  fail_if (ltb max_camera_frame_bytes payload_capacity || ltb payload_capacity worst) (
      invalid "shared_memory.config"
        "payload capacity must cover the negotiated format within the frame bound")
  slot ←
      ok_or (checked_add slot_header_bytes payload_capacity)
        (invalid "shared_memory.config" "slot stride overflows")
  slot_stride ← align_up slot slot_alignment
  slots ←
      ok_or (checked_mul slot_stride slot_count)
        (invalid "shared_memory.config" "mapping length overflows")
  total_length ←
      ok_or (checked_add header_bytes slots)
        (invalid "shared_memory.config" "mapping length overflows")
  fail_if (ltb max_mapping_bytes total_length)
      (invalid "shared_memory.config" "mapping length exceeds the bounded shared-memory limit")
  ok (record {
    format = format;
    slot_count = slot_count;
    payload_capacity = payload_capacity;
    slot_stride = slot_stride;
    total_length = total_length;
  })

abbrev is_nv12 : PixelFormat → Bool
is_nv12 nv12 = true
is_nv12 _ = false

unfoldable pub validate_dimensions : PixelFormat → ℕ → ℕ → HalResult (Unit {0})
validate_dimensions format width height = do
  fail_if
      (eqb width 0
        || (eqb height 0 || (ltb max_camera_width width || ltb max_camera_height height)))
      (invalid "shared_memory.layout" "frame dimensions are outside the negotiated bounds")
  fail_if (is_nv12 format && (not (eqb (width % 2) 0) || not (eqb (height % 2) 0)))
      (invalid "shared_memory.layout" "NV12 dimensions must be even")

-- The first loop of `validate_planes`.
unfoldable pub check_ranges : List PlaneLayout → ℕ → HalResult (Unit {0})
check_ranges [] payload_length = ok tt
check_ranges (p ∷ planes) payload_length =
    let rest = check_ranges planes payload_length in
    do
      end ←
          ok_or (checked_add p.offset p.length)
            (invalid "shared_memory.layout" "plane range overflows")
      fail_if (ltb payload_length end)
          (invalid "shared_memory.layout" "plane range escapes the frame payload")
      rest

-- `checked_mul(2).unwrap_or(usize::MAX)`
abbrev double_or_max : ℕ → ℕ
double_or_max width = elim (checked_mul width 2) [ some n ↦ n | none ↦ u64_max ]

-- The least stride and the rows of each plane.
abbrev minimum_of : PixelFormat → ℕ → ℕ → List (ℕ × ℕ)
minimum_of nv12 width height = (width, height) ∷ (width, height / 2) ∷ (0, 0) ∷ []
minimum_of yuyv width height = (double_or_max width, height) ∷ (0, 0) ∷ (0, 0) ∷ []
minimum_of mjpeg width height = (0, 0) ∷ (0, 0) ∷ (0, 0) ∷ []

-- The second loop, over the planes zipped with their minimum.
unfoldable pub check_sizes : List PlaneLayout → List (ℕ × ℕ) → HalResult (Unit {0})
check_sizes [] minimum = ok tt
check_sizes (p ∷ planes) [] = ok tt
check_sizes (p ∷ planes) ((minimum_stride, rows) ∷ minimum) =
    let rest = check_sizes planes minimum in
    do
      fail_if (ltb p.stride minimum_stride)
          (invalid "shared_memory.layout" "plane dimensions do not cover the negotiated frame")
      size ←
          ok_or (checked_mul p.stride rows) (invalid "shared_memory.layout" "plane size overflows")
      fail_if (ltb p.length size)
          (invalid "shared_memory.layout" "plane dimensions do not cover the negotiated frame")
      rest

abbrev range_of : PlaneLayout → ℕ × ℕ
range_of p = (p.offset, p.offset + p.length)

-- `sort_unstable_by_key` on the start; ranges with one start may come in either order.
unfoldable pub place : ℕ × ℕ → List (ℕ × ℕ) → List (ℕ × ℕ)
place r [] = r ∷ []
place r (s ∷ ranges) = let rest = place r ranges in if leb r.0 s.0 then r ∷ s ∷ ranges else s ∷ rest

unfoldable pub sort_by_start : List (ℕ × ℕ) → List (ℕ × ℕ)
sort_by_start [] = []
sort_by_start (r ∷ ranges) = place r (sort_by_start ranges)

-- `windows(2).any(..)`
unfoldable pub has_overlap : List (ℕ × ℕ) → Bool
has_overlap [] = false
has_overlap (r ∷ []) = false
has_overlap (r ∷ s ∷ ranges) = ltb s.0 r.1 || has_overlap (s ∷ ranges)

abbrev expected_count : PixelFormat → ℕ
expected_count format = if is_nv12 format then 2 else 1

unfoldable pub validate_planes : PixelFormat → ℕ → ℕ → List PlaneLayout → ℕ → HalResult (Unit {0})
unfolding check_ranges check_sizes
validate_planes format width height planes payload_length = do
  fail_if (not (eqb (length planes) (expected_count format)) || ltb max_planes (length planes))
      (invalid "shared_memory.layout" "plane count does not match the pixel format")
  check_ranges planes payload_length
  check_sizes planes (minimum_of format width height)
  fail_if (has_overlap (sort_by_start (map range_of planes)))
      (invalid "shared_memory.layout" "plane ranges overlap")
