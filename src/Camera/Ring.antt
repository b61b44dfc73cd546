-- ===== src/Camera/Ring.antt =====
-- adapters/shared-memory/src/ring.rs: the frames of a capture, in the slots of a shared mapping. The
-- broker writes and pins slots, and a client copies the slot that a lease names.
-- The memory of the slots is a function of their index. A slot's state is one of the four that
-- `SlotState::raw` writes. How the operating system answers a lock or an unlock, and what the caller's
-- `copy_payload` does to the payload bytes, are arguments.
pub mod Select
pub mod Pins
pub mod Lease
pub mod Refused
use robot_hal.Prelude.{
  ℕ, zero, suc, ◌+◌, String, false, not, ◌&&◌, Option, none, some, List, ltb, eqb, if◌then◌else◌,
}
use robot_hal.Core.Names.{unavailable}
use robot_hal.Core.Lease.{checked_succ}
use robot_hal.Core.Error.{HalError, HalResult, ok, err, ◌>>=◌, ◌>>◌, fail_if, build_error}
use robot_hal.Camera.Layout.{RingConfig, validate_dimensions, validate_planes, invalid}
use robot_hal.Camera.Slot.{
  BrokerMapping, FrameLease, FrameMetadata, RingSlot, SlotState, free, is_free, is_pinned, is_ready,
  pinned, ready, same_identity, set_slot, set_state, writing,
}

-- The oldest ready slot so far, as the loop of `select_writable_slot` keeps it.
abbrev pub older : RingSlot → ℕ → Option (ℕ × ℕ) → Option (ℕ × ℕ)
older slot index none = if is_ready slot.state then some (index, slot.sequence) else none
older slot index (some (i, s)) =
    if is_ready slot.state && ltb slot.sequence s then some (index, slot.sequence) else some (i, s)

abbrev index_of : Option (ℕ × ℕ) → Option ℕ
index_of none = none
index_of (some (i, s)) = some i

-- The loop of `select_writable_slot`, with the number of slots that are left.
unfoldable pub scan_writable : (ℕ → RingSlot) → ℕ → ℕ → Option (ℕ × ℕ) → Option ℕ
scan_writable slots zero index oldest = index_of oldest
scan_writable slots (suc left) index oldest =
    let rest = scan_writable slots left (index + 1) (older (slots index) index oldest) in
    if is_free (slots index).state then some index else rest

unfoldable pub select_writable_slot : BrokerMapping → Option ℕ
unfolding scan_writable
select_writable_slot b = scan_writable b.slots b.config.slot_count 0 none

-- `increment_dropped_locked`
unfoldable pub increment_dropped : BrokerMapping → BrokerMapping × HalResult (Unit {0})
increment_dropped b = elim (checked_succ b.dropped_frames) [
  | none ↦ (b, err (invalid "shared_memory.publish" "dropped-frame counter overflow"))
  | some next ↦ (record b { dropped_frames = next }, ok tt)
]

-- What `copy_payload` leaves in the destination, and what it answers.
abbrev pub Copier : Type 0
Copier = List ℕ → List ℕ × HalResult ℕ

-- The checks on a copied payload.
unfoldable pub check_copied : RingConfig → FrameMetadata → HalResult ℕ → HalResult ℕ
check_copied config m copied = do
  payload_length ← copied
  fail_if (ltb config.payload_capacity payload_length)
      (invalid "shared_memory.publish" "payload copier exceeded the negotiated slot capacity")
  validate_planes m.format m.width m.height m.planes payload_length
  ok payload_length

abbrev written : RingSlot → FrameMetadata → ℕ → ℕ → RingSlot
written slot m dropped payload_length = record slot {
  generation = m.generation;
  timestamp = m.monotonic_timestamp_ns;
  dropped = dropped;
  payload_length = payload_length;
  planes = m.planes;
  sequence = m.sequence;
}

-- What it does once a slot is chosen and the drop is counted.
unfoldable pub fill_slot :
    BrokerMapping → ℕ → SlotState → FrameMetadata → Copier → BrokerMapping × HalResult (Unit {0})
unfolding check_copied
fill_slot b index previous m copy =
    let marked = record (b.slots index) { state = writing } in
    let (bytes, copied) = copy marked.payload in
    let slot = record marked { payload = bytes } in
    elim (check_copied b.config m copied) [
      | err e ↦ (set_slot b index (record slot { state = previous }), err e)
      | ok n ↦
          (set_slot b index (record (written slot m b.dropped_frames n) { state = ready }), ok tt)
    ]

-- A ready frame that is about to be replaced counts as dropped.
unfoldable pub count_overwrite : BrokerMapping → SlotState → BrokerMapping × HalResult (Unit {0})
count_overwrite b previous = if is_ready previous then increment_dropped b else (b, ok tt)

abbrev pub fill_counted :
    BrokerMapping × HalResult (Unit {0})
    → ℕ
    → SlotState
    → FrameMetadata
    → Copier
    → BrokerMapping × HalResult (Unit {0})
fill_counted (b, ok _) index previous m copy = fill_slot b index previous m copy
fill_counted (b, err e) index previous m copy = (b, err e)

-- `publish_locked_with`
unfoldable pub publish_locked :
    BrokerMapping → FrameMetadata → Copier → BrokerMapping × HalResult (Unit {0})
unfolding count_overwrite
publish_locked b m copy = elim (select_writable_slot b) [
  | none ↦ increment_dropped b
  | some index ↦
      let previous = (b.slots index).state in
      fill_counted (count_overwrite b previous) index previous m copy
]

abbrev pub unavailable_error : String → String → HalError
unavailable_error operation message =
    build_error "shared_memory.unavailable" unavailable operation false message

-- What the operating system answers: the lock is taken and its unlock may fail, it is held by
-- another, or the call fails.
pub data Lock : Type 0 where
  taken : Option String → Lock
  busy broken : String → Lock

abbrev pub unlocked {ℓ} : {A : Type ℓ} → Option String → String → HalResult A → HalResult A
unlocked none operation result = result
unlocked (some message) operation result = err (unavailable_error operation message)

-- `increment_dropped_unlocked`; the counter's error comes before that of the unlock.
unfoldable pub increment_dropped_unlocked :
    BrokerMapping → Lock → BrokerMapping × HalResult (Unit {0})
unfolding increment_dropped
increment_dropped_unlocked b (taken failure) =
    let (b', counted) = increment_dropped b in
    (b', do counted; unlocked failure "shared_memory.publish" (ok tt))
increment_dropped_unlocked b (busy _) = (b, ok tt)
increment_dropped_unlocked b (broken _) = (b, ok tt)

-- `publish_with`
unfoldable pub publish_with :
    BrokerMapping → Lock → Lock → FrameMetadata → Copier → BrokerMapping × HalResult (Unit {0})
unfolding increment_dropped_unlocked publish_locked
publish_with b lock second m copy = elim (validate_dimensions m.format m.width m.height) [
  | err e ↦ (b, err e)
  | ok _ ↦ elim lock [
    | taken failure ↦
        let (b', result) = publish_locked b m copy in
        (b', unlocked failure "shared_memory.publish" result)
    | busy _ ↦ increment_dropped_unlocked b second
    | broken message ↦ (b, err (unavailable_error "shared_memory.publish" message))
  ]
]

-- `release_pin_locked`
unfoldable pub release_pin_locked : BrokerMapping → BrokerMapping
release_pin_locked b = elim b.pinned_lease [
  | none ↦ b
  | some lease ↦
      let slot = b.slots lease.slot_index in
      let b' : BrokerMapping = record b { pinned_lease = none } in
      if same_identity lease.identity b.identity
        && (eqb slot.sequence lease.sequence
            && (eqb slot.generation lease.generation && is_pinned slot.state))
      then set_state b' lease.slot_index free
      else b'
]

abbrev pub newer : RingSlot → ℕ → Option (ℕ × ℕ) → Option (ℕ × ℕ)
newer slot index none = if is_ready slot.state then some (index, slot.sequence) else none
newer slot index (some (i, s)) =
    if is_ready slot.state && ltb s slot.sequence then some (index, slot.sequence) else some (i, s)

-- The loop of `next_frame_lease_locked`.
unfoldable pub scan_latest : (ℕ → RingSlot) → ℕ → ℕ → Option (ℕ × ℕ) → Option (ℕ × ℕ)
scan_latest slots zero index latest = latest
scan_latest slots (suc left) index latest =
    scan_latest slots left (index + 1) (newer (slots index) index latest)

-- `next_frame_lease_locked`; its second look at the state and the sequence are kept.
unfoldable pub next_frame_lease_locked : BrokerMapping → BrokerMapping × Option FrameLease
unfolding release_pin_locked scan_latest
next_frame_lease_locked b =
    let b' = release_pin_locked b in
    elim (scan_latest b'.slots b'.config.slot_count 0 none) [
      | none ↦ (b', none)
      | some (index, sequence) ↦
          if not (is_ready (b'.slots index).state)
          then (b', none)
          else if not (eqb (b'.slots index).sequence sequence)
          then (set_state b' index ready, none)
          else let lease : FrameLease = record {
            identity = b'.identity;
            slot_index = index;
            sequence = sequence;
            generation = (b'.slots index).generation;
          } in
            (record (set_state b' index pinned) { pinned_lease = some lease }, some lease)
    ]
