-- ===== src/Camera/Slot.antt =====
-- The slots of the shared ring of adapters/shared-memory/src/ring.rs, with the frame metadata and the
-- slot states of layout.rs. The memory of the slots is a function of their index; the state of a slot is
-- one of the four that `SlotState::raw` writes.
use robot_hal.Prelude.{ℕ, Bool, true, false, Option, List, eqb, if◌then◌else◌}
use robot_hal.Camera.Format.{PixelFormat}
use robot_hal.Camera.Layout.{PlaneLayout, RingConfig}

pub record FrameMetadata : Type 0 where
  pub format : PixelFormat
  pub width : ℕ
  pub height : ℕ
  pub sequence : ℕ
  pub generation : ℕ
  pub monotonic_timestamp_ns : ℕ
  pub dropped_count : ℕ
  pub planes : List PlaneLayout

pub data SlotState : Type 0 where
  free writing ready pinned : SlotState

-- What a slot holds in the mapping: its header fields and the bytes of its payload.
pub record RingSlot : Type 0 where
  pub state : SlotState
  pub sequence : ℕ
  pub generation : ℕ
  pub timestamp : ℕ
  pub dropped : ℕ
  pub payload_length : ℕ
  pub planes : List PlaneLayout
  pub payload : List ℕ

-- `MappingIdentity`, its 32 bytes read as one number.
pub record MappingIdentity : Type 0 where
  pub bytes : ℕ

pub record FrameLease : Type 0 where
  pub identity : MappingIdentity
  pub slot_index : ℕ
  pub sequence : ℕ
  pub generation : ℕ

-- `BrokerMapping`, with the header fields of its mapping that change.
pub record BrokerMapping : Type 0 where
  pub config : RingConfig
  pub identity : MappingIdentity
  pub pinned_lease : Option FrameLease
  pub dropped_frames : ℕ
  pub is_closed : Bool
  pub slots : ℕ → RingSlot

abbrev pub is_free : SlotState → Bool
is_free free = true
is_free _ = false

abbrev pub is_ready : SlotState → Bool
is_ready ready = true
is_ready _ = false

abbrev pub is_pinned : SlotState → Bool
is_pinned pinned = true
is_pinned _ = false

abbrev pub same_identity : MappingIdentity → MappingIdentity → Bool
same_identity a b = eqb a.bytes b.bytes

abbrev pub set_slot : BrokerMapping → ℕ → RingSlot → BrokerMapping
set_slot b index slot = record b { slots = λ j. if eqb index j then slot else b.slots j }

-- `write_slot_state`
abbrev pub set_state : BrokerMapping → ℕ → SlotState → BrokerMapping
set_state b index state = set_slot b index (record (b.slots index) { state = state })
