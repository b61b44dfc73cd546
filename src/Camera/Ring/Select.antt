-- ===== src/Camera/Ring/Select.antt =====
-- Which slot the writer takes and which one a reader is given.
use robot_hal.Prelude.{
  ℕ, zero, suc, ◌+◌, ◌≤◌, ◌<◌, ◌≡◌, ◌⊎◌, inl, inr, refl, true, false, ◌&&◌, Option, none, some,
  arith, Bool-cases, subst, ltb, eqb,
}
use robot_hal.Camera.Ring.{older, newer, scan_writable, scan_latest, select_writable_slot}
use robot_hal.Camera.Slot.{RingSlot, BrokerMapping, is_free, is_ready}

module _ (slots : ℕ → RingSlot) where
  -- No slot under a bound is free, and none is ready.
  abbrev pub AllTaken : ℕ → Type 0
  AllTaken bound =
      (j : ℕ) → j < bound → (is_free (slots j).state ≡ false) × (is_ready (slots j).state ≡ false)

  -- No slot under a bound is free, and the ready ones have no smaller sequence than one of them.
  pub record IsOldest (bound k : ℕ) : Type 0 where
    pub inside : k < bound
    pub is_ready_slot : is_ready (slots k).state ≡ true
    pub none_free : (j : ℕ) → j < bound → is_free (slots j).state ≡ false
    pub least :
        (j : ℕ)
        → j < bound
        → is_ready (slots j).state ≡ true
        → (slots k).sequence ≤ (slots j).sequence

  abbrev Covers : ℕ → Option (ℕ × ℕ) → Type 0
  Covers bound none = AllTaken bound
  Covers bound (some (k, s)) = IsOldest bound k × ((slots k).sequence ≡ s)

  -- What the writer is given: a free slot, or else the oldest ready one.
  abbrev pub IsPicked : ℕ → Option ℕ → Type 0
  IsPicked bound none = AllTaken bound
  IsPicked bound (some i) = ((i < bound) × (is_free (slots i).state ≡ true)) ⊎ IsOldest bound i

  below_suc : {P : ℕ → Type 0} (n : ℕ) → ((j : ℕ) → j < n → P j) → P n → (j : ℕ) → j < n + 1 → P j
  below_suc {P = P} n before last j lt = elim (Bool-cases (eqb j n)) [
    | inl e ↦ let same : n ≡ j = ground arith in subst P same last
    | inr e ↦ before j (ground arith)
  ]

  older-Covers :
      (bound : ℕ) (oldest : Option (ℕ × ℕ))
      → Covers bound oldest
      → is_free (slots bound).state ≡ false
      → Covers (bound + 1) (older (slots bound) bound oldest)
  older-Covers bound none h f = elim (Bool-cases (is_ready (slots bound).state)) [
    | inl r ↦ rw r (
      record {
        inside = omega arith;
        is_ready_slot = r;
        none_free = below_suc bound (λ j lt. (h j lt).0) f;
        least = below_suc bound (λ j lt e. absurd (ground (arith, h j lt))) (λ e. omega arith);
      },
      refl,
    )
    | inr n ↦ rw n (below_suc bound h (f, n))
  ]
  older-Covers bound (some (k, s)) (h, same) f =
      elim (Bool-cases (is_ready (slots bound).state && ltb (slots bound).sequence s)) [
        | inl r ↦ rw r (
          record {
            inside = omega arith;
            is_ready_slot = ground arith;
            none_free = below_suc bound h.none_free f;
            least = below_suc bound (λ j lt e. ground (arith, h.least j lt e)) (λ e. omega arith);
          },
          refl,
        )
        | inr n ↦ rw n (
          record {
            inside = omega (arith, h.inside);
            is_ready_slot = h.is_ready_slot;
            none_free = below_suc bound h.none_free f;
            least = below_suc bound h.least (λ e. ground arith);
          },
          same,
        )
      ]

  scan_writable-IsPicked :
      (left index bound : ℕ) (oldest : Option (ℕ × ℕ))
      → index + left ≡ bound
      → Covers index oldest
      → IsPicked bound (scan_writable slots left index oldest)
  unfolding scan_writable
  scan_writable-IsPicked zero index bound none e h = subst AllTaken (omega (arith, e)) h
  scan_writable-IsPicked zero index bound (some (k, s)) e h =
      inr (subst (λ n. IsOldest n k) (omega (arith, e)) h.0)
  scan_writable-IsPicked (suc left) index bound oldest e h =
      elim (Bool-cases (is_free (slots index).state)) [
        | inl f ↦ rw f (inl (omega arith, f))
        | inr n ↦ rw n (
            scan_writable-IsPicked left (index + 1) bound (older (slots index) index oldest)
              (omega arith) (older-Covers index oldest h n))
      ]

  -- No slot under a bound is ready.
  abbrev pub NoneReady : ℕ → Type 0
  NoneReady bound = (j : ℕ) → j < bound → is_ready (slots j).state ≡ false

  -- A ready slot under a bound whose sequence no other ready slot exceeds.
  pub record IsNewest (bound k : ℕ) : Type 0 where
    pub inside : k < bound
    pub is_ready_slot : is_ready (slots k).state ≡ true
    pub greatest :
        (j : ℕ)
        → j < bound
        → is_ready (slots j).state ≡ true
        → (slots j).sequence ≤ (slots k).sequence

  abbrev pub IsLatest : ℕ → Option (ℕ × ℕ) → Type 0
  IsLatest bound none = NoneReady bound
  IsLatest bound (some (k, s)) = IsNewest bound k × ((slots k).sequence ≡ s)

  newer-IsLatest :
      (bound : ℕ) (latest : Option (ℕ × ℕ))
      → IsLatest bound latest
      → IsLatest (bound + 1) (newer (slots bound) bound latest)
  newer-IsLatest bound none h = elim (Bool-cases (is_ready (slots bound).state)) [
    | inl r ↦ rw r (
      record {
        inside = omega arith;
        is_ready_slot = r;
        greatest = below_suc bound (λ j lt e. absurd (ground (arith, h j lt))) (λ e. omega arith);
      },
      refl,
    )
    | inr n ↦ rw n (below_suc bound h n)
  ]
  newer-IsLatest bound (some (k, s)) (h, same) =
      elim (Bool-cases (is_ready (slots bound).state && ltb s (slots bound).sequence)) [
        | inl r ↦ rw r (
          record {
            inside = omega arith;
            is_ready_slot = ground arith;
            greatest =
                below_suc bound (λ j lt e. ground (arith, h.greatest j lt e)) (λ e. omega arith);
          },
          refl,
        )
        | inr n ↦ rw n (
          record {
            inside = omega (arith, h.inside);
            is_ready_slot = h.is_ready_slot;
            greatest = below_suc bound h.greatest (λ e. ground arith);
          },
          same,
        )
      ]

  pub scan_latest-IsLatest :
      (left index bound : ℕ) (latest : Option (ℕ × ℕ))
      → index + left ≡ bound
      → IsLatest index latest
      → IsLatest bound (scan_latest slots left index latest)
  unfolding scan_latest
  scan_latest-IsLatest zero index bound latest e h =
      subst (λ n. IsLatest n latest) (omega (arith, e)) h
  scan_latest-IsLatest (suc left) index bound latest e h =
      scan_latest-IsLatest left (index + 1) bound (newer (slots index) index latest) (omega arith)
        (newer-IsLatest index latest h)

-- `select_writable_slot` returns a free slot where there is one, and otherwise the ready slot with
-- the least sequence; it returns none exactly where every slot is being written or pinned.
pub select_writable_slot-IsPicked :
    (b : BrokerMapping) → IsPicked b.slots b.config.slot_count (select_writable_slot b)
unfolding select_writable_slot
select_writable_slot-IsPicked b =
    scan_writable-IsPicked b.slots b.config.slot_count 0 b.config.slot_count none (omega arith)
      (λ j lt. absurd (omega arith))
