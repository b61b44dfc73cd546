-- ===== src/Camera/Ring/Lease.antt =====
-- The lease that the broker hands out: its slot is pinned, and stays as it is until the next lease.
use robot_hal.Prelude.{
  ℕ, ◌<◌, ◌≡◌, ◌⊎◌, inl, inr, refl, true, false, Option, none, some, List, [], ◌∷◌, arith,
  Bool-cases, Option-cases, eqb, subst, ◌∙◌, sym, ap,
}
use robot_hal.Camera.Layout.{RingConfig}
use robot_hal.Camera.Ring.{
  Copier, Lock, publish_with, release_pin_locked, scan_latest, next_frame_lease_locked,
}
use robot_hal.Camera.Slot.{
  RingSlot, free, pinned, BrokerMapping, FrameLease, FrameMetadata, is_pinned, same_identity,
  set_state, MappingIdentity,
}
use robot_hal.Camera.Ring.Select.{IsLatest, IsNewest, NoneReady, scan_latest-IsLatest}
use robot_hal.Camera.Ring.Pins.{Spares, IsWriting, publish_with-IsWriting}

-- The slot of a lease is pinned with the lease's own sequence and generation.
pub record IsPin (b : BrokerMapping) (lease : FrameLease) : Type 0 where
  pub inside : lease.slot_index < b.config.slot_count
  pub pinned_slot : is_pinned (b.slots lease.slot_index).state ≡ true
  pub same_sequence : (b.slots lease.slot_index).sequence ≡ lease.sequence
  pub same_generation : (b.slots lease.slot_index).generation ≡ lease.generation
  pub own : same_identity lease.identity b.identity ≡ true

-- A slot is pinned where the current lease names it, and nowhere else.
abbrev PinFits : BrokerMapping → Option FrameLease → Type 0
PinFits b none = (j : ℕ) → is_pinned (b.slots j).state ≡ false
PinFits b (some lease) =
    IsPin b lease × ((j : ℕ) → is_pinned (b.slots j).state ≡ true → lease.slot_index ≡ j)

abbrev pub IsPinned : BrokerMapping → Type 0
IsPinned b = PinFits b b.pinned_lease

spared_pin :
    (before after : RingSlot) → Spares before after → is_pinned before.state ≡ true → after ≡ before
spared_pin before after (inl same) h = same
spared_pin before after (inr (calm, after_calm)) h = absurd (ground arith)

spared_calm :
    (before after : RingSlot) → Spares before after → is_pinned before.state ≡ is_pinned after.state
spared_calm before after (inl same) = ground arith
spared_calm before after (inr (calm, after_calm)) = ground arith

writing-IsPinned : (b b' : BrokerMapping) → IsWriting b b' → IsPinned b → IsPinned b'
writing-IsPinned b b' w h = subst (PinFits b') (sym w.same_pin) (fits b.pinned_lease h)
  where
    fits : (o : Option FrameLease) → PinFits b o → PinFits b' o
    fits none k = λ j. sym (spared_calm (b.slots j) (b'.slots j) (w.spares j)) ∙ k j
    fits (some lease) (pin, only) =
        let i = lease.slot_index in
        let same = spared_pin (b.slots i) (b'.slots i) (w.spares i) pin.pinned_slot in
        (
          record {
            inside = ground (arith, pin.inside, w.same_config);
            pinned_slot = ground (arith, pin.pinned_slot);
            same_sequence = ground (arith, pin.same_sequence);
            same_generation = ground (arith, pin.same_generation);
            own = ground (arith, pin.own, w.same_id);
          },
          λ j k. only j (spared_calm (b.slots j) (b'.slots j) (w.spares j) ∙ k),
        )

record IsReleased (b b' : BrokerMapping) : Type 0 where
  config_stays : b'.config ≡ b.config
  id_stays : b'.identity ≡ b.identity
  no_pin : b'.pinned_lease ≡ none
  calm : (j : ℕ) → is_pinned (b'.slots j).state ≡ false

release_pin-IsReleased : (b : BrokerMapping) → IsPinned b → IsReleased b (release_pin_locked b)
unfolding release_pin_locked
release_pin-IsReleased b h = elim (Option-cases b.pinned_lease) [
  | inl e ↦
      let calm : PinFits b none = subst (PinFits b) e h in
      rw (e, release_pin_locked)
        (record { config_stays = refl; id_stays = refl; no_pin = e; calm = calm })
  | inr (lease, e) ↦
      let fits : PinFits b (some lease) = subst (PinFits b) e h in
      let (pin, only) = fits in
      let own = pin.own in
      let sequence = pin.same_sequence in
      let generation = pin.same_generation in
      let held = pin.pinned_slot in
      rw (e, release_pin_locked)
        (record {
          config_stays = ground arith;
          id_stays = ground arith;
          no_pin = ground arith;
          calm = λ j. elim (Bool-cases (is_pinned (b.slots j).state)) [
            | inl k ↦ let same = only j k in ground arith
            | inr k ↦ ground arith
          ];
        })
]

release_pin-IsPinned : (b : BrokerMapping) → IsPinned b → IsPinned (release_pin_locked b)
release_pin-IsPinned b h =
    let r = release_pin-IsReleased b h in
    subst (PinFits (release_pin_locked b)) (sym r.no_pin) r.calm

-- The lease of a slot.
abbrev pub lease_of : BrokerMapping → ℕ → FrameLease
lease_of b index = record {
  identity = b.identity;
  slot_index = index;
  sequence = (b.slots index).sequence;
  generation = (b.slots index).generation;
}

abbrev pub pin_slot : BrokerMapping → ℕ → BrokerMapping
pin_slot b index = record (set_state b index pinned) { pinned_lease = some (lease_of b index) }

-- `next_frame_lease_locked` first gives back the preceding pin; then it pins the ready slot with the
-- greatest sequence and returns its lease, and it returns none exactly where no slot is ready.
pub next_frame_lease_cases :
    (b : BrokerMapping)
    → let b' = release_pin_locked b in
      ((next_frame_lease_locked b ≡ (b', none)) × NoneReady b'.slots b'.config.slot_count)
      ⊎ ((index : ℕ) × IsNewest b'.slots b'.config.slot_count index
          × (next_frame_lease_locked b ≡ (pin_slot b' index, some (lease_of b' index))))
unfolding next_frame_lease_locked
next_frame_lease_cases b =
    let b' = release_pin_locked b in
    let n = b'.config.slot_count in
    let latest =
      scan_latest-IsLatest b'.slots n 0 n none (omega arith) (λ j lt. absurd (omega arith)) in
    elim (Option-cases (scan_latest b'.slots n 0 none)) [
      | inl e ↦ inl (rw (next_frame_lease_locked, e) refl, subst (IsLatest b'.slots n) e latest)
      | inr ((index, sequence), e) ↦
          let (newest, same) = subst (IsLatest b'.slots n) e latest in
          let seen = newest.is_ready_slot in inr (index, newest, ground arith)
    ]

pin_slot-IsPinned :
    (b : BrokerMapping) (index : ℕ)
    → ((j : ℕ) → is_pinned (b.slots j).state ≡ false)
    → index < b.config.slot_count
    → IsPinned (pin_slot b index)
pin_slot-IsPinned b index calm below = (
  record {
    inside = below;
    pinned_slot = ground arith;
    same_sequence = ground arith;
    same_generation = ground arith;
    own = ground arith;
  },
  λ j k. elim (Bool-cases (eqb index j)) [
    | inl e ↦ ground arith
    | inr e ↦ absurd (ground (arith, calm j))
  ],
)

next_lease-IsPinned : (b : BrokerMapping) → IsPinned b → IsPinned (next_frame_lease_locked b).0
next_lease-IsPinned b h =
    let r = release_pin-IsReleased b h in
    elim (next_frame_lease_cases b) [
      | inl (e, none_ready) ↦ rw e (release_pin-IsPinned b h)
      | inr (index, newest, e) ↦
          rw e (pin_slot-IsPinned (release_pin_locked b) index r.calm newest.inside)
    ]

-- The calls on a mapping that has the lock where it needs it.
pub data Op : Type 0 where
  publishing : Lock → Lock → FrameMetadata → Copier → Op
  leasing releasing : Op

unfoldable pub step : BrokerMapping → Op → BrokerMapping
step b (publishing lock second m copy) = (publish_with b lock second m copy).0
step b leasing = (next_frame_lease_locked b).0
step b releasing = release_pin_locked b

unfoldable pub run : BrokerMapping → List Op → BrokerMapping
run b [] = b
run b (op ∷ ops) = run (step b op) ops

step-IsPinned : (b : BrokerMapping) (op : Op) → IsPinned b → IsPinned (step b op)
unfolding step
step-IsPinned b (publishing lock second m copy) h =
    writing-IsPinned b (publish_with b lock second m copy).0
      (publish_with-IsWriting b lock second m copy) h
step-IsPinned b leasing h = next_lease-IsPinned b h
step-IsPinned b releasing h = release_pin-IsPinned b h

run-IsPinned : (b : BrokerMapping) (ops : List Op) → IsPinned b → IsPinned (run b ops)
unfolding run
run-IsPinned b [] h = h
run-IsPinned b (op ∷ ops) h = run-IsPinned (step b op) ops (step-IsPinned b op h)

-- A new mapping: its memory is zero, so that every slot is free.
abbrev pub blank_slot : RingSlot
blank_slot = record {
  state = free;
  sequence = 0;
  generation = 0;
  timestamp = 0;
  dropped = 0;
  payload_length = 0;
  planes = [];
  payload = [];
}

abbrev pub new_mapping : RingConfig → MappingIdentity → BrokerMapping
new_mapping config identity = record {
  config = config;
  identity = identity;
  pinned_lease = none;
  dropped_frames = 0;
  is_closed = false;
  slots = λ j. blank_slot;
}

-- After any history of publishing, leasing and releasing from a new mapping, at most one slot is
-- pinned: the one that the broker's current lease names, with the lease's sequence and generation.
pub run_new-IsPinned :
    (config : RingConfig) (identity : MappingIdentity) (ops : List Op)
    → IsPinned (run (new_mapping config identity) ops)
run_new-IsPinned config identity ops = run-IsPinned (new_mapping config identity) ops (λ j. refl)

-- Attempts to publish, one after the other.
unfoldable pub publish_all :
    BrokerMapping → List (Lock × Lock × FrameMetadata × Copier) → BrokerMapping
publish_all b [] = b
publish_all b ((lock, second, m, copy) ∷ rest) =
    publish_all (publish_with b lock second m copy).0 rest

-- What attempts to publish leave as it is.
pub record IsKept (b b' : BrokerMapping) (j : ℕ) : Type 0 where
  pub config_same : b'.config ≡ b.config
  pub id_same : b'.identity ≡ b.identity
  pub end_same : b'.is_closed ≡ b.is_closed
  pub slot_same : b'.slots j ≡ b.slots j

pub publish_all-IsKept :
    (b : BrokerMapping) (frames : List (Lock × Lock × FrameMetadata × Copier)) (j : ℕ)
    → is_pinned (b.slots j).state ≡ true
    → IsKept b (publish_all b frames) j
unfolding publish_all
publish_all-IsKept b [] j h = record {
  config_same = refl;
  id_same = refl;
  end_same = refl;
  slot_same = refl;
}
publish_all-IsKept b ((lock, second, m, copy) ∷ rest) j h =
    let b' = (publish_with b lock second m copy).0 in
    let w = publish_with-IsWriting b lock second m copy in
    let same = spared_pin (b.slots j) (b'.slots j) (w.spares j) h in
    let k = publish_all-IsKept b' rest j (rw same h) in
    record {
      config_same = k.config_same ∙ w.same_config;
      id_same = k.id_same ∙ w.same_id;
      end_same = k.end_same ∙ w.same_end;
      slot_same = k.slot_same ∙ same;
    }

-- A lease that has been handed out names a pinned slot with its own sequence and generation.
pub handed_lease :
    (b : BrokerMapping) (lease : FrameLease)
    → (next_frame_lease_locked b).1 ≡ some lease
    → (index : ℕ) × IsNewest
        (release_pin_locked b).slots
        (release_pin_locked b).config.slot_count
        index
      × (lease_of (release_pin_locked b) index ≡ lease)
      × ((next_frame_lease_locked b).0 ≡ pin_slot (release_pin_locked b) index)
handed_lease b lease handed = elim (next_frame_lease_cases b) [
  | inl (e, none_ready) ↦
      let nothing : none ≡ some lease = subst (λ r. r.1 ≡ some lease) e handed in
      absurd (ground arith)
  | inr (index, newest, e) ↦
      let given : some (lease_of (release_pin_locked b) index) ≡ some lease =
        subst (λ r. r.1 ≡ some lease) e handed in
      (index, newest, ground arith, ap (λ r. r.0) e)
]

pub handed_pinned :
    (b : BrokerMapping) (lease : FrameLease)
    → (next_frame_lease_locked b).1 ≡ some lease
    → is_pinned ((next_frame_lease_locked b).0.slots lease.slot_index).state ≡ true
handed_pinned b lease handed =
    let (index, newest, same, e) = handed_lease b lease handed in
    rw e (
      subst
        (λ l. is_pinned ((pin_slot (release_pin_locked b) index).slots l.slot_index).state ≡ true)
        same (ground arith))
