-- ===== src/Camera/Format.antt =====
-- `CameraFormat` of crates/robot-hal-camera/src/lib.rs. A `usize` has 64 bits.
use robot_hal.Prelude.{
  ℕ, ◌+◌, ◌*◌, ◌/◌, ◌≤◌, ◌≡◌, ◌↔◌, String, false, ◌||◌, Option, none, some, arith, ltb, leb, eqb,
  if◌then◌else◌,
}
use native.Mathlib.Nat.{mul-le-mul}
use robot_hal.Core.Names.{invalid_argument}
use robot_hal.Core.Lease.{u64_max}
use robot_hal.Core.Error.{HalError, HalResult, ok, ◌>>=◌, ◌>>◌, fail_if, ok_or, build_error}

abbrev pub max_camera_width : ℕ
max_camera_width = 4096

abbrev pub max_camera_height : ℕ
max_camera_height = 2160

abbrev pub max_camera_frame_bytes : ℕ
max_camera_frame_bytes = 25165824

abbrev pub min_camera_slot_count : ℕ
min_camera_slot_count = 4

abbrev pub max_camera_slot_count : ℕ
max_camera_slot_count = 8

-- `usize::checked_add` and `usize::checked_mul`
abbrev pub checked_add : ℕ → ℕ → Option ℕ
checked_add a b = if leb (a + b) u64_max then some (a + b) else none

abbrev pub checked_mul : ℕ → ℕ → Option ℕ
checked_mul a b = if leb (a * b) u64_max then some (a * b) else none

pub data PixelFormat : Type 0 where
  nv12 yuyv mjpeg : PixelFormat

pub record CameraFormat : Type 0 where
  pub pixel_format : PixelFormat
  pub width : ℕ
  pub height : ℕ

abbrev invalid_format : String → HalError
invalid_format message =
    build_error "camera.format.invalid" invalid_argument "camera.format" false message

-- `worst_case_frame_bytes`; the width and the height are `u32`, which a `usize` holds.
unfoldable pub worst_case_frame_bytes : CameraFormat → HalResult ℕ
worst_case_frame_bytes f = do
  pixels ← ok_or (checked_mul f.width f.height) (invalid_format "camera dimensions overflow")
  elim f.pixel_format [
    | nv12 ↦ do
      bytes ← ok_or (checked_mul pixels 3) (invalid_format "NV12 frame size overflows")
      ok (bytes / 2)
    | yuyv ↦ ok_or (checked_mul pixels 2) (invalid_format "YUYV frame size overflows")
    | mjpeg ↦ ok max_camera_frame_bytes
  ]

-- `CameraFormat::validate`
unfoldable pub validate_format : CameraFormat → HalResult (Unit {0})
unfolding worst_case_frame_bytes
validate_format f = do
  fail_if
      (eqb f.width 0
        || (eqb f.height 0 || (ltb max_camera_width f.width || ltb max_camera_height f.height)))
      (invalid_format "camera dimensions must be non-zero and within public bounds")
  bytes ← worst_case_frame_bytes f
  fail_if (ltb max_camera_frame_bytes bytes)
      (invalid_format "camera format worst-case payload exceeds the frame bound")

-- `CameraFormat::new`
unfoldable new_format : PixelFormat → ℕ → ℕ → HalResult CameraFormat
unfolding validate_format
new_format pixel_format width height = do
  let f : CameraFormat = record { pixel_format = pixel_format; width = width; height = height }
  validate_format f
  ok f

-- What the bounds of a frame leave of its size.
pub record IsPublic (f : CameraFormat) : Type 0 where
  pub wide : 1 ≤ f.width
  pub high : 1 ≤ f.height
  pub narrow : f.width ≤ max_camera_width
  pub low : f.height ≤ max_camera_height

pixels_le : (w h : ℕ) → w ≤ max_camera_width → h ≤ max_camera_height → w * h ≤ 8847360
pixels_le w h a b = omega (arith, mul-le-mul a b)

-- The bytes of the largest frame of a format.
abbrev pub largest_frame : PixelFormat → ℕ → ℕ → ℕ
largest_frame nv12 width height = width * height * 3 / 2
largest_frame yuyv width height = width * height * 2
largest_frame mjpeg width height = max_camera_frame_bytes

worst_case_of :
    (p : PixelFormat) (w h : ℕ)
    → w * h ≤ 8847360
    → worst_case_frame_bytes (record { pixel_format = p; width = w; height = h })
      ≡ ok (largest_frame p w h)
unfolding worst_case_frame_bytes
worst_case_of nv12 w h b = ground arith
worst_case_of yuyv w h b = ground arith
worst_case_of mjpeg w h b = ground arith

pub worst_case_public :
    (f : CameraFormat)
    → IsPublic f
    → worst_case_frame_bytes f ≡ ok (largest_frame f.pixel_format f.width f.height)
worst_case_public f h =
    worst_case_of f.pixel_format f.width f.height (pixels_le f.width f.height h.narrow h.low)

largest_frame_le :
    (p : PixelFormat) (w h : ℕ) → w * h ≤ 8847360 → largest_frame p w h ≤ max_camera_frame_bytes
largest_frame_le nv12 w h b = omega arith
largest_frame_le yuyv w h b = omega arith
largest_frame_le mjpeg w h b = omega arith

pub validate_format_iff : (f : CameraFormat) → (validate_format f ≡ ok tt) ↔ IsPublic f
unfolding validate_format
validate_format_iff f = (
  λ e. record {
    wide = ground arith;
    high = ground arith;
    narrow = ground arith;
    low = ground arith;
  },
  λ h.
      let worst = worst_case_public f h in
      let bound =
        largest_frame_le f.pixel_format f.width f.height
          (pixels_le f.width f.height h.narrow h.low) in
      ground (arith, h),
)

-- `CameraFormat::new` accepts exactly the dimensions from 1 to 4096 by 1 to 2160: within them the
-- worst frame of every pixel format fits the 24 MiB bound, so that no other check refuses one.
new_format_iff :
    (pixel_format : PixelFormat) (width height : ℕ)
    → let f : CameraFormat = record {
      pixel_format = pixel_format;
      width = width;
      height = height;
    } in
      (new_format pixel_format width height ≡ ok f) ↔ IsPublic f
unfolding new_format
new_format_iff pixel_format width height = ground (
  arith,
  validate_format_iff (record { pixel_format = pixel_format; width = width; height = height }),
)
