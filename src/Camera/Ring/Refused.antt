-- ===== src/Camera/Ring/Refused.antt =====
-- What is left of a slot whose frame is refused after its payload has been copied.
use robot_hal.Prelude.{ℕ, ◌+◌, ◌<◌, ◌≡◌, some, List, arith, if◌then◌else◌}
use robot_hal.Core.Lease.{u64_max}
use robot_hal.Core.Error.{HalError, HalResult, err}
use robot_hal.Camera.Ring.{
  Copier, select_writable_slot, increment_dropped, count_overwrite, fill_slot, check_copied,
  publish_locked,
}
use robot_hal.Camera.Slot.{BrokerMapping, FrameMetadata, is_ready}

-- When the copier fails or its frame does not pass the checks, the publisher answers that error. The
-- chosen slot gets its state back and keeps every header field, but its payload is what the copier
-- left: a frame that was ready stays ready with other bytes, and it is counted as dropped.
pub publish_refused :
    (b : BrokerMapping) (index : ℕ) (m : FrameMetadata) (copy : Copier) (bytes : List ℕ)
    (copied : HalResult ℕ) (e : HalError)
    → select_writable_slot b ≡ some index
    → b.dropped_frames < u64_max
    → copy (b.slots index).payload ≡ (bytes, copied)
    → check_copied b.config m copied ≡ err e
    → let (b', result) = publish_locked b m copy in
      (result ≡ err e)
      × (b'.slots index ≡ record (b.slots index) { payload = bytes })
      × (b'.dropped_frames ≡ b.dropped_frames + (if is_ready (b.slots index).state then 1 else 0))
unfolding publish_locked fill_slot count_overwrite increment_dropped
publish_refused b index m copy bytes copied e picked room h k = ground arith
