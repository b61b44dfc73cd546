-- ===== src/Camera/Ring/Pins.antt =====
-- What the writer leaves alone: every slot that is pinned.
use robot_hal.Prelude.{
  ℕ, ◌≡◌, ◌⊎◌, inl, inr, refl, false, some, arith, Bool-cases, Option-cases, eqb, subst, ◌∙◌,
}
use robot_hal.Core.Error.{HalResult, ok, err, result_cases}
use robot_hal.Camera.Layout.{validate_dimensions}
use robot_hal.Camera.Ring.{
  Copier, Lock, taken, busy, broken, select_writable_slot, increment_dropped,
  increment_dropped_unlocked, fill_slot, count_overwrite, fill_counted, publish_locked,
  publish_with,
}
use robot_hal.Camera.Slot.{RingSlot, SlotState, BrokerMapping, FrameMetadata, is_ready, is_pinned}
use robot_hal.Camera.Ring.Select.{IsPicked, select_writable_slot-IsPicked}

-- What the writer may do to a slot: leave it as it is, or work on one that is not pinned.
abbrev pub Spares : RingSlot → RingSlot → Type 0
Spares before after =
    (after ≡ before) ⊎ ((is_pinned before.state ≡ false) × (is_pinned after.state ≡ false))

pub record IsWriting (b b' : BrokerMapping) : Type 0 where
  pub same_config : b'.config ≡ b.config
  pub same_id : b'.identity ≡ b.identity
  pub same_pin : b'.pinned_lease ≡ b.pinned_lease
  pub same_end : b'.is_closed ≡ b.is_closed
  pub spares : (j : ℕ) → Spares (b.slots j) (b'.slots j)

unchanged : (b : BrokerMapping) → IsWriting b b
unchanged b = record {
  same_config = refl;
  same_id = refl;
  same_pin = refl;
  same_end = refl;
  spares = λ j. inl refl;
}

increment-IsWriting : (b : BrokerMapping) → IsWriting b (increment_dropped b).0
unfolding increment_dropped
increment-IsWriting b = record {
  same_config = ground arith;
  same_id = ground arith;
  same_pin = ground arith;
  same_end = ground arith;
  spares = λ j. inl (ground arith);
}

fill_slot-IsWriting :
    (b : BrokerMapping) (index : ℕ) (m : FrameMetadata) (copy : Copier) (previous : SlotState)
    → is_pinned (b.slots index).state ≡ false
    → is_pinned previous ≡ false
    → IsWriting b (fill_slot b index previous m copy).0
unfolding fill_slot
fill_slot-IsWriting b index m copy previous h k = record {
  same_config = ground arith;
  same_id = ground arith;
  same_pin = ground arith;
  same_end = ground arith;
  spares = λ j. elim (Bool-cases (eqb index j)) [
    | inl e ↦ let same : index ≡ j = ground arith in inr (ground arith, ground arith)
    | inr e ↦ inl (ground arith)
  ];
}

picked_not_pinned :
    (b : BrokerMapping) (index : ℕ)
    → select_writable_slot b ≡ some index
    → is_pinned (b.slots index).state ≡ false
picked_not_pinned b index e =
    elim (subst (IsPicked b.slots b.config.slot_count) e (select_writable_slot-IsPicked b)) [
      | inl (below, f) ↦ ground arith
      | inr oldest ↦ ground (arith, oldest.is_ready_slot)
    ]

-- Counting a drop, then writing.
pub record OnlyCounts (b b' : BrokerMapping) : Type 0 where
  pub config_kept : b'.config ≡ b.config
  pub id_kept : b'.identity ≡ b.identity
  pub pin_kept : b'.pinned_lease ≡ b.pinned_lease
  pub end_kept : b'.is_closed ≡ b.is_closed
  pub slots_kept : (j : ℕ) → b'.slots j ≡ b.slots j

increment-OnlyCounts : (b : BrokerMapping) → OnlyCounts b (increment_dropped b).0
unfolding increment_dropped
increment-OnlyCounts b = record {
  config_kept = ground arith;
  id_kept = ground arith;
  pin_kept = ground arith;
  end_kept = ground arith;
  slots_kept = λ j. ground arith;
}

OnlyCounts-IsWriting : (b b' : BrokerMapping) → OnlyCounts b b' → IsWriting b b'
OnlyCounts-IsWriting b b' c = record {
  same_config = c.config_kept;
  same_id = c.id_kept;
  same_pin = c.pin_kept;
  same_end = c.end_kept;
  spares = λ j. inl (c.slots_kept j);
}

counted-IsWriting :
    (b b' b'' : BrokerMapping) → OnlyCounts b b' → IsWriting b' b'' → IsWriting b b''
counted-IsWriting b b' b'' c w = record {
  same_config = w.same_config ∙ c.config_kept;
  same_id = w.same_id ∙ c.id_kept;
  same_pin = w.same_pin ∙ c.pin_kept;
  same_end = w.same_end ∙ c.end_kept;
  spares = λ j. subst (λ s. Spares s (b''.slots j)) (c.slots_kept j) (w.spares j);
}

pub count_overwrite-OnlyCounts :
    (b : BrokerMapping) (previous : SlotState) → OnlyCounts b (count_overwrite b previous).0
unfolding count_overwrite
count_overwrite-OnlyCounts b previous = elim (Bool-cases (is_ready previous)) [
  | inl r ↦ rw r (increment-OnlyCounts b)
  | inr n ↦ rw n (record {
    config_kept = refl;
    id_kept = refl;
    pin_kept = refl;
    end_kept = refl;
    slots_kept = λ j. refl;
  })
]

fill_counted-IsWriting :
    (b : BrokerMapping) (counted : BrokerMapping × HalResult (Unit {0})) (index : ℕ)
    (previous : SlotState) (m : FrameMetadata) (copy : Copier)
    → OnlyCounts b counted.0
    → is_pinned (b.slots index).state ≡ false
    → is_pinned previous ≡ false
    → IsWriting b (fill_counted counted index previous m copy).0
fill_counted-IsWriting b (b', err e) index previous m copy c h k = OnlyCounts-IsWriting b b' c
fill_counted-IsWriting b (b', ok u) index previous m copy c h k =
    counted-IsWriting b b' (fill_slot b' index previous m copy).0 c
      (fill_slot-IsWriting b' index m copy previous (rw (c.slots_kept index) h) k)

publish_locked-IsWriting :
    (b : BrokerMapping) (m : FrameMetadata) (copy : Copier)
    → IsWriting b (publish_locked b m copy).0
unfolding publish_locked
publish_locked-IsWriting b m copy = elim (Option-cases (select_writable_slot b)) [
  | inl e ↦
      rw (e, publish_locked)
        (OnlyCounts-IsWriting b (increment_dropped b).0 (increment-OnlyCounts b))
  | inr (index, e) ↦
      let calm = picked_not_pinned b index e in
      let previous = (b.slots index).state in
      rw (e, publish_locked)
        (fill_counted-IsWriting b (count_overwrite b previous) index previous m copy
          (count_overwrite-OnlyCounts b previous) calm calm)
]

unlocked_count-OnlyCounts :
    (b : BrokerMapping) (lock : Lock) → OnlyCounts b (increment_dropped_unlocked b lock).0
unfolding increment_dropped_unlocked
unlocked_count-OnlyCounts b (taken failure) = increment-OnlyCounts b
unlocked_count-OnlyCounts b (busy message) = record {
  config_kept = refl;
  id_kept = refl;
  pin_kept = refl;
  end_kept = refl;
  slots_kept = λ j. refl;
}
unlocked_count-OnlyCounts b (broken message) = record {
  config_kept = refl;
  id_kept = refl;
  pin_kept = refl;
  end_kept = refl;
  slots_kept = λ j. refl;
}

pub publish_with-IsWriting :
    (b : BrokerMapping) (lock second : Lock) (m : FrameMetadata) (copy : Copier)
    → IsWriting b (publish_with b lock second m copy).0
unfolding publish_with
publish_with-IsWriting b (taken failure) second m copy =
    elim (result_cases (validate_dimensions m.format m.width m.height)) [
      | inr (e, f) ↦ rw (f, publish_with) (unchanged b)
      | inl f ↦ rw (f, publish_with) (publish_locked-IsWriting b m copy)
    ]
publish_with-IsWriting b (busy message) second m copy =
    elim (result_cases (validate_dimensions m.format m.width m.height)) [
      | inr (e, f) ↦ rw (f, publish_with) (unchanged b)
      | inl f ↦
          rw (f, publish_with)
            (OnlyCounts-IsWriting b (increment_dropped_unlocked b second).0
              (unlocked_count-OnlyCounts b second))
    ]
publish_with-IsWriting b (broken message) second m copy =
    elim (result_cases (validate_dimensions m.format m.width m.height)) [
      | inr (e, f) ↦ rw (f, publish_with) (unchanged b)
      | inl f ↦ rw (f, publish_with) (unchanged b)
    ]
