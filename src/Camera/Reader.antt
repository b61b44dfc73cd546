-- ===== src/Camera/Reader.antt =====
-- The client's side of adapters/shared-memory/src/ring.rs: `ReadOnlyMapping::copy`, which copies the
-- frame of a lease out of the mapping. The header that it has validated is the broker's, and
-- `expected_generation` is none.
pub mod Copied
pub mod Published
use robot_hal.Prelude.{
  ℕ, Bool, not, ◌&&◌, ◌||◌, Option, none, some, List, [], ◌∷◌, length, take, ltb, eqb,
  if◌then◌else◌,
}
use robot_hal.Core.Error.{HalResult, ok, err, ◌>>=◌, ◌>>◌, fail_if}
use robot_hal.Camera.Format.{PixelFormat, max_camera_frame_bytes}
use robot_hal.Camera.Layout.{
  PlaneLayout, new_plane, validate_dimensions, validate_planes, invalid, max_planes,
}
use robot_hal.Camera.Ring.{Lock, taken, busy, broken, unlocked, unavailable_error}
use robot_hal.Camera.Slot.{BrokerMapping, FrameLease, FrameMetadata, is_pinned, same_identity}

pub record CopiedFrame : Type 0 where
  pub metadata : FrameMetadata
  pub payload : List ℕ

-- `FrameMetadata::new`
unfoldable pub new_metadata :
    PixelFormat → ℕ → ℕ → ℕ → ℕ → ℕ → ℕ → List PlaneLayout → HalResult FrameMetadata
new_metadata format width height sequence generation timestamp dropped planes = do
  validate_dimensions format width height
  validate_planes format width height planes max_camera_frame_bytes
  ok (record {
    format = format;
    width = width;
    height = height;
    sequence = sequence;
    generation = generation;
    monotonic_timestamp_ns = timestamp;
    dropped_count = dropped;
    planes = planes;
  })

-- The loop of `read_metadata` over the planes in the slot header.
unfoldable pub read_planes : List PlaneLayout → HalResult (List PlaneLayout)
read_planes [] = ok []
read_planes (p ∷ planes) =
    let rest = read_planes planes in
    do plane ← new_plane p.offset p.length p.stride; others ← rest; ok (plane ∷ others)

unfoldable pub read_metadata : BrokerMapping → ℕ → ℕ → ℕ → HalResult FrameMetadata
unfolding new_metadata
read_metadata b index sequence generation =
    let slot = b.slots index in
    let format = b.config.format in
    do
      fail_if
          (ltb b.config.payload_capacity slot.payload_length || ltb max_planes (length slot.planes))
          (invalid "shared_memory.read" "slot payload or plane count exceeds the validated layout")
      planes ← read_planes slot.planes
      validate_planes format.pixel_format format.width format.height planes slot.payload_length
      new_metadata format.pixel_format format.width format.height sequence generation slot.timestamp
          slot.dropped planes

-- `slot_payload_length`
unfoldable pub slot_payload_length : BrokerMapping → ℕ → HalResult ℕ
slot_payload_length b index = do
  fail_if (ltb b.config.payload_capacity (b.slots index).payload_length)
      (invalid "shared_memory.read" "slot payload exceeds the validated capacity")
  ok (b.slots index).payload_length

-- The tests before a frame is read.
unfoldable pub is_current : BrokerMapping → FrameLease → Bool
is_current b lease =
    let slot = b.slots lease.slot_index in
    not b.is_closed
    && ((ltb lease.slot_index b.config.slot_count && is_pinned slot.state)
        && (eqb slot.generation lease.generation && eqb slot.sequence lease.sequence))

-- What `copy_locked` does once the lease has passed the tests; it compares the slot once more.
unfoldable pub read_payload :
    BrokerMapping → FrameLease → FrameMetadata → HalResult (Option CopiedFrame)
unfolding slot_payload_length
read_payload b lease metadata =
    let slot = b.slots lease.slot_index in
    if eqb slot.sequence lease.sequence
    then (slot_payload_length b lease.slot_index >>= λ n.
        ok (some (record { metadata = metadata; payload = take n slot.payload })))
    else ok none

unfoldable pub read_frame : BrokerMapping → FrameLease → HalResult (Option CopiedFrame)
unfolding read_payload
read_frame b lease = do
  metadata ← read_metadata b lease.slot_index lease.sequence (b.slots lease.slot_index).generation
  read_payload b lease metadata

unfoldable pub copy_locked : BrokerMapping → FrameLease → HalResult (Option CopiedFrame)
unfolding read_frame
copy_locked b lease =
    let frame = read_frame b lease in if is_current b lease then frame else ok none

-- `ReadOnlyMapping::copy`
unfoldable pub copy_frame : BrokerMapping → Lock → FrameLease → HalResult (Option CopiedFrame)
unfolding copy_locked
copy_frame b lock lease =
    if not (same_identity lease.identity b.identity) then ok none else elim lock [
      | taken failure ↦ unlocked failure "shared_memory.copy" (copy_locked b lease)
      | busy message ↦ err (unavailable_error "shared_memory.copy" message)
      | broken message ↦ err (unavailable_error "shared_memory.copy" message)
    ]
