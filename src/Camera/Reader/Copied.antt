-- ===== src/Camera/Reader/Copied.antt =====
-- What a client copies: the frame that was published, unchanged while its lease is current.
use robot_hal.Prelude.{ℕ, ◌≤◌, ◌≡◌, refl, some, List, [], ◌∷◌, arith}
use robot_hal.Core.Error.{ok}
use robot_hal.Camera.Format.{PixelFormat}
use robot_hal.Camera.Layout.{PlaneLayout, validate_planes, check_ranges}
use robot_hal.Camera.Ring.{Lock, Copier, next_frame_lease_locked}
use robot_hal.Camera.Slot.{BrokerMapping, FrameLease, FrameMetadata}
use robot_hal.Camera.Ring.Lease.{publish_all, publish_all-IsKept, IsKept, handed_pinned}
use robot_hal.Camera.Reader.{
  read_metadata, read_payload, read_frame, is_current, slot_payload_length, copy_locked, copy_frame,
}

-- A larger payload accepts the same planes.
check_ranges_grow :
    (planes : List PlaneLayout) (n m : ℕ)
    → n ≤ m
    → check_ranges planes n ≡ ok tt
    → check_ranges planes m ≡ ok tt
unfolding check_ranges
check_ranges_grow [] n m le h = refl
check_ranges_grow (p ∷ planes) n m le h = ground (arith, check_ranges_grow planes n m)

pub validate_planes_grow :
    (format : PixelFormat) (width height : ℕ) (planes : List PlaneLayout) (n m : ℕ)
    → n ≤ m
    → validate_planes format width height planes n ≡ ok tt
    → validate_planes format width height planes m ≡ ok tt
unfolding validate_planes
validate_planes_grow format width height planes n m le h =
    ground (arith, check_ranges_grow planes n m le)

copy_of_IsKept :
    (b b' : BrokerMapping) (lock : Lock) (lease : FrameLease)
    → IsKept b b' lease.slot_index
    → copy_frame b' lock lease ≡ copy_frame b lock lease
unfolding copy_frame copy_locked read_frame read_payload read_metadata slot_payload_length
    is_current
copy_of_IsKept b b' lock lease k = ground (arith, k)

-- Once `next_frame_lease_locked` has handed out a lease, what a client copies with it does not change
-- through any attempts to publish, whatever their frames, copiers and answers of the lock.
pub leased_frame_stays :
    (b : BrokerMapping) (lease : FrameLease) (lock : Lock)
    (frames : List (Lock × Lock × FrameMetadata × Copier))
    → (next_frame_lease_locked b).1 ≡ some lease
    → let b' = (next_frame_lease_locked b).0 in
      copy_frame (publish_all b' frames) lock lease ≡ copy_frame b' lock lease
leased_frame_stays b lease lock frames handed =
    let b' = (next_frame_lease_locked b).0 in
    copy_of_IsKept b' (publish_all b' frames) lock lease
      (publish_all-IsKept b' frames lease.slot_index (handed_pinned b lease handed))
