-- ===== src/Prelude/Maps.antt =====
-- `HashMap` and `BTreeMap` as association lists: `insert` drops an older entry of its key.
use Prim.Native.Nat.{◌≤◌, ◌+◌}
use mathlib.Core.Path.{◌≡◌, refl}
use mathlib.Core.Bool.{Bool, true, false}
use mathlib.Core.List.{List, [], ◌∷◌}
use mathlib.Core.Option.{Option, none, some}
use native.Mathlib.Omega.{arith}
use robot_hal.Prelude.Booleans.{if◌then◌else◌}
use robot_hal.Prelude.Keys.{Equality, ◌==◌, ==_iff}
use robot_hal.Prelude.Lists.{tally}

abbrev pub Map {ℓ κ} : Type ℓ → Type κ → Type (ℓ ⊔ κ)
Map K V = List (K × V)

abbrev pub is_some {ℓ} : {A : Type ℓ} → Option A → Bool
is_some none = false
is_some (some a) = true

-- `Option::is_some_and`
abbrev pub is_some_and {ℓ} : {A : Type ℓ} → Option A → (A → Bool) → Bool
is_some_and none p = false
is_some_and (some a) p = p a

-- `unwrap_or`, with the default written out
abbrev pub unwrap_or {ℓ} : {A : Type ℓ} → A → Option A → A
unwrap_or d none = d
unwrap_or d (some a) = a

abbrev pub values {ℓ κ} : {K : Type ℓ} {V : Type κ} → Map K V → List V
values [] = []
values ((k, v) ∷ m) = v ∷ values m

module _ {ℓ κ} {K : Type ℓ} {V : Type κ} ⦃e : Equality K⦄ where
  unfoldable pub get : K → Map K V → Option V
  get k [] = none
  get k ((j, v) ∷ m) = if j == k then some v else get k m

  unfoldable pub remove : K → Map K V → Map K V
  remove k [] = []
  remove k ((j, v) ∷ m) = if j == k then remove k m else (j, v) ∷ remove k m

  unfoldable pub insert : K → V → Map K V → Map K V
  unfolding remove
  insert k v m = (k, v) ∷ remove k m

  abbrev pub contains_key : K → Map K V → Bool
  contains_key k m = is_some (get k m)

  pub get-remove : (k j : K) (m : Map K V) → get j (remove k m) ≡ (if k == j then none else get j m)
  unfolding get remove
  get-remove k j [] = ground arith
  get-remove k j ((i, v) ∷ m) = ground (arith, ==_iff i k, ==_iff i j, ==_iff k j, get-remove k j m)

  pub get-insert :
      (k j : K) (v : V) (m : Map K V) → get j (insert k v m) ≡ (if k == j then some v else get j m)
  unfolding get insert
  get-insert k j v m = ground (arith, get-remove k j m)

  -- What a removal takes away from a count.
  pub tally-remove :
      (p : V → Bool) (k : K) (m : Map K V)
      → tally p (values (remove k m)) + (if is_some_and (get k m) p then 1 else 0)
        ≤ tally p (values m)
  unfolding get remove
  tally-remove p k [] = ground arith
  tally-remove p k ((i, v) ∷ m) = ground (arith, tally-remove p k m)

  pub tally-remove-le :
      (p : V → Bool) (k : K) (m : Map K V) → tally p (values (remove k m)) ≤ tally p (values m)
  tally-remove-le p k m = omega (arith, tally-remove p k m)

  pub tally-insert :
      (p : V → Bool) (k : K) (v : V) (m : Map K V)
      → tally p (values (insert k v m)) ≤ (if p v then 1 else 0) + tally p (values m)
  unfolding insert
  tally-insert p k v m = omega (arith, tally-remove-le p k m)

  pub remove_of_missing : (k : K) (m : Map K V) → get k m ≡ none → remove k m ≡ m
  unfolding get remove
  remove_of_missing k [] h = refl
  remove_of_missing k ((i, v) ∷ m) h = ground (arith, remove_of_missing k m)

  pub remove-insert : (k : K) (v : V) (m : Map K V) → get k m ≡ none → remove k (insert k v m) ≡ m
  unfolding insert remove
  remove-insert k v m h =
      ground (
        arith,
        ==_iff k k,
        remove_of_missing k (remove k m),
        get-remove k k m,
        remove_of_missing k m,
      )
