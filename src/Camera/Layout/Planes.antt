-- ===== src/Camera/Layout/Planes.antt =====
-- What `validate_planes` promises of the planes of a frame.
use robot_hal.Prelude.{ℕ, ◌+◌, ◌*◌, ◌/◌, ◌≤◌, ◌≡◌, ◌↔◌, ◌⊎◌, [], ◌∷◌, arith}
use robot_hal.Core.Error.{ok}
use robot_hal.Camera.Format.{nv12, yuyv, mjpeg, max_camera_width}
use robot_hal.Camera.Layout.{
  PlaneLayout, validate_planes, check_ranges, check_sizes, place, sort_by_start, has_overlap,
  u32_max,
}

-- What `PlaneLayout::new` guarantees.
pub record IsPlane (p : PlaneLayout) : Type 0 where
  pub filled : 1 ≤ p.length
  pub fits : p.offset + p.length ≤ u32_max

-- A plane lies in the payload and has room for its rows.
pub record Holds (p : PlaneLayout) (minimum_stride rows payload_length : ℕ) : Type 0 where
  pub inside : p.offset + p.length ≤ payload_length
  pub wide : minimum_stride ≤ p.stride
  pub tall : p.stride * rows ≤ p.length

abbrev AreApart : PlaneLayout → PlaneLayout → Type 0
AreApart p q = (p.offset + p.length ≤ q.offset) ⊎ (q.offset + q.length ≤ p.offset)

-- `validate_planes` accepts the planes of an NV12 frame exactly when there are two, each inside the
-- payload, without overlap, the first with `height` rows and the second with `height / 2` rows of at
-- least `width` bytes.
nv12_planes_iff :
    (width height payload_length : ℕ) (p q : PlaneLayout)
    → IsPlane p
    → IsPlane q
    → (validate_planes nv12 width height (p ∷ q ∷ []) payload_length ≡ ok tt) ↔ (
        Holds p width height payload_length
        × Holds q width (height / 2) payload_length
        × AreApart p q)
unfolding validate_planes check_ranges check_sizes sort_by_start place has_overlap
nv12_planes_iff width height payload_length p q a b = ground arith

-- It accepts the plane of a YUYV frame exactly when it lies inside the payload with `height` rows of
-- at least twice `width` bytes, and that of an MJPEG frame exactly when it lies inside the payload.
packed_planes_iff :
    (width height payload_length : ℕ) (p : PlaneLayout)
    → width ≤ max_camera_width
    → IsPlane p
    → ((validate_planes yuyv width height (p ∷ []) payload_length ≡ ok tt)
        ↔ Holds p (width * 2) height payload_length)
      × ((validate_planes mjpeg width height (p ∷ []) payload_length ≡ ok tt)
          ↔ (p.offset + p.length ≤ payload_length))
unfolding validate_planes check_ranges check_sizes sort_by_start place has_overlap
packed_planes_iff width height payload_length p small a = (ground arith, ground arith)
