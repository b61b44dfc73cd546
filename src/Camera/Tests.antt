-- ===== src/Camera/Tests.antt =====
-- Runs of adapters/shared-memory on a ring of four small YUYV frames.
use robot_hal.Prelude.{
  ℕ, ◌+◌, ◌*◌, ◌%◌, ◌≤◌, ◌≡◌, ◌⊎◌, refl, none, some, List, [], ◌∷◌, arith, take, if◌then◌else◌,
}
use robot_hal.Core.Error.{HalError, ok, err}
use robot_hal.Camera.Format.{yuyv, CameraFormat, validate_format, worst_case_frame_bytes}
use robot_hal.Camera.Layout.{
  RingConfig, PlaneLayout, new_plane, new_ring_config, align_up, validate_dimensions,
  validate_planes, check_ranges, check_sizes, sort_by_start, place, has_overlap, header_bytes,
  slot_header_bytes, slot_alignment, max_mapping_bytes, invalid,
}
use robot_hal.Camera.Layout.Slots.{slots_apart}
use robot_hal.Camera.Layout.Planes.{IsPlane}
use robot_hal.Camera.Ring.{
  Lock, taken, busy, Copier, select_writable_slot, scan_writable, publish_with, publish_locked,
  count_overwrite, fill_slot, check_copied, next_frame_lease_locked, release_pin_locked,
  scan_latest,
}
use robot_hal.Camera.Slot.{
  BrokerMapping, MappingIdentity, FrameLease, FrameMetadata, ready, is_ready,
}
use robot_hal.Camera.Ring.Select.{IsPicked, IsNewest, NoneReady, select_writable_slot-IsPicked}
use robot_hal.Camera.Ring.Lease.{
  Op, publishing, leasing, run, new_mapping, blank_slot, IsPinned, run_new-IsPinned,
  next_frame_lease_cases, publish_all, lease_of, pin_slot,
}
use robot_hal.Camera.Ring.Refused.{publish_refused}
use robot_hal.Camera.Reader.{copy_frame}
use robot_hal.Camera.Reader.Copied.{leased_frame_stays}
use robot_hal.Camera.Reader.Published.{FitsRing, publish-copy}

abbrev small : CameraFormat
small = record { pixel_format = yuyv; width = 2; height = 2 }

abbrev config : RingConfig
config = record {
  format = small;
  slot_count = 4;
  payload_capacity = 64;
  slot_stride = 192;
  total_length = 960;
}

config_accepted : new_ring_config small 4 64 ≡ ok config
unfolding new_ring_config align_up validate_format worst_case_frame_bytes
config_accepted = refl

slots_apart_example :
    let start : ℕ → ℕ = λ k. header_bytes + k * config.slot_stride in
    let finish : ℕ → ℕ = λ k. start k + (slot_header_bytes + config.payload_capacity) in
    (start 1 % slot_alignment ≡ 0)
    × (header_bytes ≤ start 1)
    × (finish 1 ≤ start 3)
    × (finish 3 ≤ config.total_length)
    × (config.total_length ≤ max_mapping_bytes)
slots_apart_example = slots_apart small 4 64 1 3 config config_accepted (omega arith) (omega arith)

abbrev luma : PlaneLayout
luma = record { offset = 0; length = 4; stride = 2 }

abbrev chroma : PlaneLayout
chroma = record { offset = 4; length = 2; stride = 2 }

abbrev packed : PlaneLayout
packed = record { offset = 0; length = 8; stride = 4 }

luma-IsPlane : IsPlane luma
luma-IsPlane = record { filled = omega arith; fits = omega arith }

chroma-IsPlane : IsPlane chroma
chroma-IsPlane = record { filled = omega arith; fits = omega arith }

packed-IsPlane : IsPlane packed
packed-IsPlane = record { filled = omega arith; fits = omega arith }

abbrev session : MappingIdentity
session = record { bytes = 77 }

abbrev empty_ring : BrokerMapping
empty_ring = new_mapping config session

abbrev frame : FrameMetadata
frame = record {
  format = yuyv;
  width = 2;
  height = 2;
  sequence = 1;
  generation = 7;
  monotonic_timestamp_ns = 123;
  dropped_count = 0;
  planes = packed ∷ [];
}

abbrev pixels : List ℕ
pixels = 10 ∷ 20 ∷ 30 ∷ 40 ∷ 50 ∷ 60 ∷ 70 ∷ 80 ∷ []

abbrev copier : Copier
copier payload = (pixels, ok 8)

abbrev one_frame : BrokerMapping
one_frame = (publish_with empty_ring (taken none) (taken none) frame copier).0

abbrev first_lease : FrameLease
first_lease = record { identity = session; slot_index = 0; sequence = 1; generation = 7 }

picked_first : select_writable_slot empty_ring ≡ some 0
unfolding select_writable_slot scan_writable
picked_first = refl

frame_accepted : (publish_with empty_ring (taken none) (taken none) frame copier).1 ≡ ok tt
unfolding publish_with publish_locked count_overwrite fill_slot check_copied validate_planes
    check_ranges check_sizes sort_by_start place has_overlap validate_dimensions
    select_writable_slot scan_writable
frame_accepted = refl

lease_handed : (next_frame_lease_locked one_frame).1 ≡ some first_lease
unfolding publish_with publish_locked count_overwrite fill_slot check_copied validate_planes
    check_ranges check_sizes sort_by_start place has_overlap validate_dimensions
    select_writable_slot scan_writable next_frame_lease_locked release_pin_locked scan_latest
lease_handed = refl

select_writable_slot-IsPicked_example :
    IsPicked empty_ring.slots empty_ring.config.slot_count (select_writable_slot empty_ring)
select_writable_slot-IsPicked_example = select_writable_slot-IsPicked empty_ring

next_frame_lease_cases_example :
    let b' = release_pin_locked one_frame in
    ((next_frame_lease_locked one_frame ≡ (b', none)) × NoneReady b'.slots b'.config.slot_count)
    ⊎ ((index : ℕ) × IsNewest b'.slots b'.config.slot_count index
        × (next_frame_lease_locked one_frame ≡ (pin_slot b' index, some (lease_of b' index))))
next_frame_lease_cases_example = next_frame_lease_cases one_frame

abbrev calls : List Op
calls = publishing (taken none) (taken none) frame copier ∷ leasing ∷ []

run_new-IsPinned_example : IsPinned (run (new_mapping config session) calls)
run_new-IsPinned_example = run_new-IsPinned config session calls

abbrev attempts : List (Lock × Lock × FrameMetadata × Copier)
attempts = (taken none, taken none, frame, copier) ∷ (busy "held", taken none, frame, copier) ∷ []

leased_frame_stays_example :
    copy_frame (publish_all (next_frame_lease_locked one_frame).0 attempts) (taken none) first_lease
    ≡ copy_frame (next_frame_lease_locked one_frame).0 (taken none) first_lease
leased_frame_stays_example =
    leased_frame_stays one_frame first_lease (taken none) attempts lease_handed

frame_fits : FitsRing config frame
unfolding new_plane
frame_fits = record {
  capacity = omega arith;
  same_format = refl;
  same_width = refl;
  same_height = refl;
  built = (refl, tt);
}

publish-copy_example :
    copy_frame (next_frame_lease_locked one_frame).0 (taken none) first_lease
    ≡ ok (
        some (record {
          metadata = record frame { dropped_count = one_frame.dropped_frames };
          payload = take 8 pixels;
        }))
publish-copy_example =
    publish-copy empty_ring (taken none) frame copier 0 8 pixels first_lease refl frame_fits
      picked_first refl frame_accepted lease_handed refl

-- A ring in which every slot holds a ready frame.
abbrev full_ring : BrokerMapping
full_ring = record empty_ring { slots = λ j. record blank_slot { state = ready; sequence = j + 1 } }

abbrev greedy : Copier
greedy payload = (pixels, ok 100)

abbrev too_long : HalError
too_long = invalid "shared_memory.publish" "payload copier exceeded the negotiated slot capacity"

picked_oldest : select_writable_slot full_ring ≡ some 0
unfolding select_writable_slot scan_writable
picked_oldest = refl

frame_refused : check_copied full_ring.config frame (ok 100) ≡ err too_long
unfolding check_copied
frame_refused = refl

publish_refused_example :
    let (b', result) = publish_locked full_ring frame greedy in
    (result ≡ err too_long)
    × (b'.slots 0 ≡ record (full_ring.slots 0) { payload = pixels })
    × (b'.dropped_frames
        ≡ full_ring.dropped_frames + (if is_ready (full_ring.slots 0).state then 1 else 0))
publish_refused_example =
    publish_refused full_ring 0 frame greedy pixels (ok 100) too_long picked_oldest (omega arith)
      refl frame_refused
