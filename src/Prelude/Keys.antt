-- ===== src/Prelude/Keys.antt =====
-- Equality of keys as an interface: `PartialEq` and `Equality` of the source.
use Prim.Native.Nat.{ℕ}
use Prim.Native.String.{String}
use mathlib.Core.Path.{◌≡◌, refl}
use mathlib.Core.Logic.{◌↔◌}
use mathlib.Core.Bool.{Bool, true}
use text.Mathlib.Text.{◌==◌ as str_eq}
use text.Mathlib.TextEquality.{eq_iff}
use robot_hal.Prelude.Booleans.{eqb, eqb_iff}

pub record Equality {ℓ} (A : Type ℓ) : Type ℓ where
  pub same : A → A → Bool
  pub same_iff : (a b : A) → (same a b ≡ true) ↔ (a ≡ b)

infix 50 ◌==◌
abbrev pub ◌==◌ {ℓ} : {A : Type ℓ} ⦃keys : Equality A⦄ → A → A → Bool
◌==◌ ⦃keys⦄ = keys.same

pub ==_iff {ℓ} : {A : Type ℓ} ⦃keys : Equality A⦄ (a b : A) → ((a == b) ≡ true) ↔ (a ≡ b)
==_iff ⦃keys⦄ a b = keys.same_iff a b

pub ==_refl {ℓ} : {A : Type ℓ} ⦃keys : Equality A⦄ (a : A) → (a == a) ≡ true
==_refl a = (==_iff a a).1 refl

instance abbrev pub nat_eq : Equality ℕ
nat_eq = record { same = eqb; same_iff = eqb_iff }

instance abbrev pub string_eq : Equality String
string_eq = record { same = str_eq; same_iff = eq_iff }
