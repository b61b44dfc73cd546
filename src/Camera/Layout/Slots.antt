-- ===== src/Camera/Layout/Slots.antt =====
-- Where the slots of a ring lie in its mapping.
use robot_hal.Prelude.{ℕ, ◌+◌, ◌*◌, ◌/◌, ◌%◌, ◌≤◌, ◌<◌, ◌≡◌, ◌↔◌, arith, subst}
use native.Mathlib.Nat.{mul_assoc, mul_comm, mul-le-mul, mul-le-mul_right}
use robot_hal.Core.Error.{ok}
use robot_hal.Camera.Format.{
  CameraFormat, IsPublic, max_camera_frame_bytes, validate_format_iff, worst_case_public,
  largest_frame,
}
use robot_hal.Camera.Layout.{
  RingConfig, new_ring_config, align_up, header_bytes, slot_header_bytes, slot_alignment,
  max_mapping_bytes,
}

-- `align_up` to 64 bytes: the least multiple that is not below the value.
align_up_bounds :
    (value : ℕ)
    → value ≤ max_mapping_bytes
    → let stride = (value + 63) / 64 * 64 in
      (align_up value 64 ≡ ok stride) × (value ≤ stride) × (stride < value + 64) × (stride % 64 ≡ 0)
unfolding align_up
align_up_bounds value h = ground arith

abbrev stride_of : ℕ → ℕ
stride_of capacity = (128 + capacity + 63) / 64 * 64

abbrev ring_of : CameraFormat → ℕ → ℕ → RingConfig
ring_of f slots capacity = record {
  format = f;
  slot_count = slots;
  payload_capacity = capacity;
  slot_stride = stride_of capacity;
  total_length = 192 + stride_of capacity * slots;
}

slots_le :
    (capacity slots : ℕ)
    → capacity ≤ max_camera_frame_bytes
    → slots ≤ 8
    → stride_of capacity * slots ≤ 201328128
slots_le capacity slots a b =
    let stride : stride_of capacity ≤ 25166016 = omega (arith, a) in
    omega (arith, mul-le-mul stride b)

-- What the checks of `RingConfig::new` leave.
record IsAccepted (f : CameraFormat) (slots capacity : ℕ) : Type 0 where
  is_public : IsPublic f
  enough : 4 ≤ slots
  few : slots ≤ 8
  roomy : largest_frame f.pixel_format f.width f.height ≤ capacity
  small : capacity ≤ max_camera_frame_bytes

new_ring_config-IsAccepted :
    (f : CameraFormat) (slots capacity : ℕ) (config : RingConfig)
    → new_ring_config f slots capacity ≡ ok config
    → IsAccepted f slots capacity
unfolding new_ring_config
new_ring_config-IsAccepted f slots capacity config e =
    let format = validate_format_iff f in
    let public : IsPublic f = ground (arith, format) in
    let worst = worst_case_public f public in
    record {
      is_public = public;
      enough = ground arith;
      few = ground arith;
      roomy = ground arith;
      small = ground arith;
    }

ring_of-IsAccepted :
    (f : CameraFormat) (slots capacity : ℕ)
    → IsAccepted f slots capacity
    → new_ring_config f slots capacity ≡ ok (ring_of f slots capacity)
unfolding new_ring_config
ring_of-IsAccepted f slots capacity h =
    let format = validate_format_iff f in
    let worst = worst_case_public f h.is_public in
    let padded = align_up_bounds (128 + capacity) (omega (arith, h.small)) in
    let bound = slots_le capacity slots h.small h.few in ground (arith, format, h)

-- `RingConfig::new` accepts exactly a format in the public bounds, 4 to 8 slots, and a capacity from
-- the largest frame of the format up to 24 MiB; the checks on overflow and on the 256 MiB limit of
-- the mapping never refuse one.
new_ring_config_iff :
    (f : CameraFormat) (slots capacity : ℕ)
    → (new_ring_config f slots capacity ≡ ok (ring_of f slots capacity)) ↔ (
        IsPublic f
        × (4 ≤ slots)
        × (slots ≤ 8)
        × (largest_frame f.pixel_format f.width f.height ≤ capacity)
        × (capacity ≤ max_camera_frame_bytes))
new_ring_config_iff f slots capacity = (
  λ e.
      let h = new_ring_config-IsAccepted f slots capacity (ring_of f slots capacity) e in
      (h.is_public, h.enough, h.few, h.roomy, h.small),
  λ (p, a, b, c, d).
      ring_of-IsAccepted f slots capacity
        (record { is_public = p; enough = a; few = b; roomy = c; small = d }),
)

-- In a ring that `RingConfig::new` accepts, each slot starts at a multiple of 64 bytes behind the
-- header, its header and its payload end before the next slot and inside the mapping, and the mapping
-- has at most 256 MiB.
pub slots_apart :
    (f : CameraFormat) (slots capacity i j : ℕ) (config : RingConfig)
    → new_ring_config f slots capacity ≡ ok config
    → i < j
    → j < config.slot_count
    → let start : ℕ → ℕ = λ k. header_bytes + k * config.slot_stride in
      let finish : ℕ → ℕ = λ k. start k + (slot_header_bytes + config.payload_capacity) in
      (start i % slot_alignment ≡ 0)
      × (header_bytes ≤ start i)
      × (finish i ≤ start j)
      × (finish j ≤ config.total_length)
      × (config.total_length ≤ max_mapping_bytes)
slots_apart f slots capacity i j config e below inside =
    let h = new_ring_config-IsAccepted f slots capacity config e in
    let e' = ring_of-IsAccepted f slots capacity h in
    let same : config ≡ ring_of f slots capacity = ground arith in
    let stride = stride_of capacity in
    let next = mul-le-mul_right stride below in
    let last = mul-le-mul_right stride (subst (λ c. j < c.slot_count) same inside) in
    let bound = slots_le capacity slots h.small h.few in
    let swap = mul_comm stride slots in
    let padded : 128 + capacity ≤ stride = omega arith in
    rw same (
      omega (arith, mul_assoc i ((128 + capacity + 63) / 64) 64),
      omega arith,
      omega (arith, next, padded),
      omega (arith, last, padded, swap),
      omega (arith, bound),
    )
