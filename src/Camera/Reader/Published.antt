-- ===== src/Camera/Reader/Published.antt =====
-- From a published frame to the copy that a client takes of it.
use robot_hal.Prelude.{
  ℕ, ◌≤◌, ◌<◌, ◌≡◌, inl, inr, refl, sym, subst, ap, ◌∙◌, true, false, Option, none, some, List, [],
  ◌∷◌, arith, Option-cases, length, take,
}
use robot_hal.Core.Error.{HalResult, ok, err}
use robot_hal.Camera.Format.{PixelFormat, max_camera_frame_bytes}
use robot_hal.Camera.Layout.{
  RingConfig, PlaneLayout, new_plane, validate_dimensions, validate_planes, max_planes,
}
use robot_hal.Camera.Ring.{
  Lock, Copier, taken, select_writable_slot, publish_locked, publish_with, next_frame_lease_locked,
  release_pin_locked, fill_slot, fill_counted, count_overwrite, check_copied,
}
use robot_hal.Camera.Slot.{
  BrokerMapping, FrameLease, FrameMetadata, RingSlot, SlotState, ready, pinned, is_pinned,
  same_identity,
}
use robot_hal.Camera.Ring.Pins.{publish_with-IsWriting, OnlyCounts, count_overwrite-OnlyCounts}
use robot_hal.Camera.Ring.Lease.{handed_lease, lease_of, pin_slot}
use robot_hal.Camera.Reader.{
  CopiedFrame, new_metadata, read_planes, read_metadata, read_payload, read_frame, is_current,
  slot_payload_length, copy_locked, copy_frame,
}
use robot_hal.Camera.Reader.Copied.{validate_planes_grow}

-- The slot of a published frame.
abbrev frame_slot : SlotState → FrameMetadata → ℕ → ℕ → List ℕ → RingSlot
frame_slot state m dropped n bytes = record {
  state = state;
  sequence = m.sequence;
  generation = m.generation;
  timestamp = m.monotonic_timestamp_ns;
  dropped = dropped;
  payload_length = n;
  planes = m.planes;
  payload = bytes;
}

record IsPublished (config : RingConfig) (b' : BrokerMapping) (index : ℕ) (m : FrameMetadata)
    (n : ℕ) (bytes : List ℕ) : Type 0 where
  checked : check_copied config m (ok n) ≡ ok n
  filled : b'.slots index ≡ frame_slot ready m b'.dropped_frames n bytes

fill_slot-IsPublished :
    (b : BrokerMapping) (index : ℕ) (previous : SlotState) (m : FrameMetadata) (copy : Copier)
    (n : ℕ) (bytes : List ℕ)
    → copy (b.slots index).payload ≡ (bytes, ok n)
    → (fill_slot b index previous m copy).1 ≡ ok tt
    → IsPublished b.config (fill_slot b index previous m copy).0 index m n bytes
unfolding fill_slot check_copied
fill_slot-IsPublished b index previous m copy n bytes copied done = record {
  checked = ground arith;
  filled = ground arith;
}

fill_counted-IsPublished :
    (b : BrokerMapping) (counted : BrokerMapping × HalResult (Unit {0})) (index : ℕ)
    (previous : SlotState) (m : FrameMetadata) (copy : Copier) (n : ℕ) (bytes : List ℕ)
    → OnlyCounts b counted.0
    → copy (b.slots index).payload ≡ (bytes, ok n)
    → (fill_counted counted index previous m copy).1 ≡ ok tt
    → IsPublished b.config (fill_counted counted index previous m copy).0 index m n bytes
fill_counted-IsPublished b (b', err e) index previous m copy n bytes c copied done =
    absurd (ground arith)
fill_counted-IsPublished b (b', ok u) index previous m copy n bytes c copied done =
    subst (λ config. IsPublished config (fill_slot b' index previous m copy).0 index m n bytes)
      c.config_kept
      (fill_slot-IsPublished b' index previous m copy n bytes (rw (c.slots_kept index) copied) done)

publish_locked_at :
    (b : BrokerMapping) (index : ℕ) (m : FrameMetadata) (copy : Copier)
    → select_writable_slot b ≡ some index
    → publish_locked b m copy
      ≡ fill_counted (count_overwrite b (b.slots index).state) index (b.slots index).state m copy
unfolding publish_locked
publish_locked_at b index m copy e = rw (publish_locked, e) refl

publish_locked-IsPublished :
    (b : BrokerMapping) (index : ℕ) (m : FrameMetadata) (copy : Copier) (n : ℕ) (bytes : List ℕ)
    → select_writable_slot b ≡ some index
    → copy (b.slots index).payload ≡ (bytes, ok n)
    → (publish_locked b m copy).1 ≡ ok tt
    → IsPublished b.config (publish_locked b m copy).0 index m n bytes
publish_locked-IsPublished b index m copy n bytes e copied done =
    let previous = (b.slots index).state in
    let counted = count_overwrite b previous in
    let at = publish_locked_at b index m copy e in
    subst (λ r. IsPublished b.config r.0 index m n bytes) (sym at)
      (fill_counted-IsPublished b counted index previous m copy n bytes
        (count_overwrite-OnlyCounts b previous) copied (ap (λ r. r.1) (sym at) ∙ done))

-- What `PlaneLayout::new` builds.
abbrev AreBuilt : List PlaneLayout → Type 0
AreBuilt [] = Unit {0}
AreBuilt (p ∷ planes) = (new_plane p.offset p.length p.stride ≡ ok p) × AreBuilt planes

read_planes_of_AreBuilt :
    (planes : List PlaneLayout) → AreBuilt planes → read_planes planes ≡ ok planes
unfolding read_planes
read_planes_of_AreBuilt [] h = refl
read_planes_of_AreBuilt (p ∷ planes) (h, k) = ground (arith, read_planes_of_AreBuilt planes k)

-- The frame fits the format of the ring, and its planes are built by `PlaneLayout::new`.
pub record FitsRing (config : RingConfig) (m : FrameMetadata) : Type 0 where
  pub capacity : config.payload_capacity ≤ max_camera_frame_bytes
  pub same_format : config.format.pixel_format ≡ m.format
  pub same_width : config.format.width ≡ m.width
  pub same_height : config.format.height ≡ m.height
  pub built : AreBuilt m.planes

planes_count :
    (format : PixelFormat) (width height : ℕ) (planes : List PlaneLayout) (n : ℕ)
    → validate_planes format width height planes n ≡ ok tt
    → length planes ≤ max_planes
unfolding validate_planes
planes_count format width height planes n h = ground arith

read_metadata_of_frame :
    (b : BrokerMapping) (index dropped n : ℕ) (m : FrameMetadata) (bytes : List ℕ)
    → b.slots index ≡ frame_slot pinned m dropped n bytes
    → FitsRing b.config m
    → validate_dimensions m.format m.width m.height ≡ ok tt
    → check_copied b.config m (ok n) ≡ ok n
    → read_metadata b index m.sequence m.generation ≡ ok (record m { dropped_count = dropped })
unfolding read_metadata check_copied new_metadata
read_metadata_of_frame b index dropped n m bytes slot fits dimensions checked =
    let format = fits.same_format in
    let width = fits.same_width in
    let height = fits.same_height in
    let planes = read_planes_of_AreBuilt m.planes fits.built in
    let valid : validate_planes m.format m.width m.height m.planes n ≡ ok tt = ground arith in
    let grown = validate_planes_grow m.format m.width m.height m.planes n max_camera_frame_bytes in
    let few = planes_count m.format m.width m.height m.planes n valid in
    ground (arith, format, width, height, slot, fits.capacity, grown)

copy_of_frame :
    (b : BrokerMapping) (lease : FrameLease) (m : FrameMetadata) (dropped n : ℕ) (bytes : List ℕ)
    → b.is_closed ≡ false
    → lease.slot_index < b.config.slot_count
    → same_identity lease.identity b.identity ≡ true
    → lease.sequence ≡ m.sequence
    → b.slots lease.slot_index ≡ frame_slot pinned m dropped n bytes
    → lease.generation ≡ m.generation
    → check_copied b.config m (ok n) ≡ ok n
    → read_metadata b lease.slot_index m.sequence m.generation
      ≡ ok (record m { dropped_count = dropped })
    → copy_frame b (taken none) lease
      ≡ ok (
          some (record { metadata = record m { dropped_count = dropped }; payload = take n bytes }))
unfolding copy_frame copy_locked is_current read_frame read_payload slot_payload_length check_copied
copy_of_frame b lease m dropped n bytes opened below own sequence slot generation checked metadata =
    ground arith

record IsGivenBack (b b' : BrokerMapping) : Type 0 where
  config_stays : b'.config ≡ b.config
  id_stays : b'.identity ≡ b.identity
  end_stays : b'.is_closed ≡ b.is_closed
  spares : (j : ℕ) → is_pinned (b.slots j).state ≡ false → b'.slots j ≡ b.slots j

release_pin-IsGivenBack : (b : BrokerMapping) → IsGivenBack b (release_pin_locked b)
unfolding release_pin_locked
release_pin-IsGivenBack b = elim (Option-cases b.pinned_lease) [
  | inl e ↦ record {
    config_stays = ground arith;
    id_stays = ground arith;
    end_stays = ground arith;
    spares = λ j calm. ground arith;
  }
  | inr (lease, e) ↦ record {
    config_stays = ground arith;
    id_stays = ground arith;
    end_stays = ground arith;
    spares = λ j calm. ground arith;
  }
]

publish_with_ok :
    (b : BrokerMapping) (second : Lock) (m : FrameMetadata) (copy : Copier)
    → (publish_with b (taken none) second m copy).1 ≡ ok tt
    → (validate_dimensions m.format m.width m.height ≡ ok tt)
      × (publish_with b (taken none) second m copy ≡ publish_locked b m copy)
unfolding publish_with
publish_with_ok b second m copy done = ground arith

-- The slot that is pinned for a lease on a published frame.
pinned_frame :
    (b : BrokerMapping) (config : RingConfig) (m : FrameMetadata) (index n : ℕ) (bytes : List ℕ)
    → IsPublished config b index m n bytes
    → (pin_slot (release_pin_locked b) index).slots index
      ≡ frame_slot pinned m b.dropped_frames n bytes
pinned_frame b config m index n bytes p =
    let back = release_pin-IsGivenBack b in
    let filled = p.filled in let stays = back.spares index (ground arith) in ground arith

copy_of_IsPublished :
    (b : BrokerMapping) (m : FrameMetadata) (index n : ℕ) (bytes : List ℕ) (lease : FrameLease)
    → b.is_closed ≡ false
    → FitsRing b.config m
    → validate_dimensions m.format m.width m.height ≡ ok tt
    → IsPublished b.config b index m n bytes
    → (next_frame_lease_locked b).1 ≡ some lease
    → lease.slot_index ≡ index
    → copy_frame (next_frame_lease_locked b).0 (taken none) lease
      ≡ ok (
          some (record {
            metadata = record m { dropped_count = b.dropped_frames };
            payload = take n bytes;
          }))
copy_of_IsPublished b m index n bytes lease opened fits dimensions p handed at =
    let (i, newest, same, e) = handed_lease b lease handed in
    let back = release_pin-IsGivenBack b in
    let chosen : i ≡ index = ap (λ l. l.slot_index) same ∙ at in
    let b' = pin_slot (release_pin_locked b) index in
    let lease' = lease_of (release_pin_locked b) index in
    let slot = pinned_frame b b.config m index n bytes p in
    let ready_slot : is_pinned (b.slots index).state ≡ false =
      ap (λ x. is_pinned x.state) p.filled in
    let kept = back.spares index ready_slot ∙ p.filled in
    let ring = back.config_stays in
    let fits' : FitsRing b'.config m = subst (λ c. FitsRing c m) (sym ring) fits in
    let checked : check_copied b'.config m (ok n) ≡ ok n = rw ring p.checked in
    let inside : index < b'.config.slot_count =
      subst (λ k. k < b'.config.slot_count) chosen newest.inside in
    let metadata =
      read_metadata_of_frame b' index b.dropped_frames n m bytes slot fits' dimensions checked in
    let given : lease' ≡ lease =
      subst (λ k. lease_of (release_pin_locked b) k ≡ lease) chosen same in
    let result =
      copy_of_frame b' lease' m b.dropped_frames n bytes (back.end_stays ∙ opened) inside
        (ground arith) (ap (λ x. x.sequence) kept) slot (ap (λ x. x.generation) kept) checked
        metadata in
    let whole : (next_frame_lease_locked b).0 ≡ b' =
      e ∙ ap (λ k. pin_slot (release_pin_locked b) k) chosen in
    let frame : HalResult (Option CopiedFrame) = ok (
      some (record {
        metadata = record m { dropped_count = b.dropped_frames };
        payload = take n bytes;
      })) in
    subst (λ l. copy_frame (next_frame_lease_locked b).0 (taken none) l ≡ frame) given
      (subst (λ c. copy_frame c (taken none) lease' ≡ frame) (sym whole) result)

-- A frame that `publish_with` accepts into a slot, in an open ring whose format it has, is what a
-- client copies once the broker leases that slot: the same metadata, with the broker's count of
-- dropped frames, and the bytes that the copier wrote, up to the length that it returned.
pub publish-copy :
    (b : BrokerMapping) (second : Lock) (m : FrameMetadata) (copy : Copier) (index n : ℕ)
    (bytes : List ℕ) (lease : FrameLease)
    → b.is_closed ≡ false
    → FitsRing b.config m
    → select_writable_slot b ≡ some index
    → copy (b.slots index).payload ≡ (bytes, ok n)
    → (publish_with b (taken none) second m copy).1 ≡ ok tt
    → let b' = (publish_with b (taken none) second m copy).0 in
      (next_frame_lease_locked b').1 ≡ some lease
      → lease.slot_index ≡ index
      → copy_frame (next_frame_lease_locked b').0 (taken none) lease
        ≡ ok (
            some (record {
              metadata = record m { dropped_count = b'.dropped_frames };
              payload = take n bytes;
            }))
publish-copy b second m copy index n bytes lease opened fits e copied done handed at =
    let (dimensions, same) = publish_with_ok b second m copy done in
    let w = publish_with-IsWriting b (taken none) second m copy in
    let b' = (publish_with b (taken none) second m copy).0 in
    let locked =
      publish_locked-IsPublished b index m copy n bytes e copied
        (ap (λ r. r.1) (sym same) ∙ done) in
    let published : IsPublished b'.config b' index m n bytes =
      subst (λ c. IsPublished c b' index m n bytes) (sym w.same_config)
        (subst (λ r. IsPublished b.config r.0 index m n bytes) (sym same) locked) in
    copy_of_IsPublished b' m index n bytes lease (w.same_end ∙ opened)
      (subst (λ c. FitsRing c m) (sym w.same_config) fits) dimensions published handed at
