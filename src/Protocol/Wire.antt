-- ===== src/Protocol/Wire.antt =====
-- The helpers of crates/robot-hal-protocol/src/{conversion,can_conversion}.rs: errors of a malformed
-- message, enumerations on the wire, optional and repeated fields, and narrowing of integers. An
-- enumeration stands in a message as an `i32`; a negative one is its bit pattern, a number of at
-- least 2^31, which names no value.
use robot_hal.Prelude.{
  ℕ, ◌≡◌, false, ◌↔◌, refl, String, Option, none, some, List, [], ◌∷◌, map, arith, ltb,
  if◌then◌else◌, concat, subst,
}
use robot_hal.Core.Names.{invalid_argument}
use robot_hal.Core.Error.{HalError, HalResult, ok, err, ◌>>=◌, ok_or, build_error}

unfoldable pub invalid_message : String → HalError
invalid_message message =
    build_error "runtime.protocol.invalid_message" invalid_argument "runtime.protocol.decode" false
      message

-- `invalid` of can_conversion.rs
unfoldable pub invalid : String → String → HalError
unfolding invalid_message
invalid field detail = invalid_message (concat field (concat " " detail))

-- `required` of can_conversion.rs
unfoldable pub required {ℓ} : {A : Type ℓ} → Option A → String → HalResult A
required value field = ok_or value (invalid field "is required")

-- `map_err(|_| e)`
abbrev pub or_error {ℓ} : {A : Type ℓ} → HalResult A → HalError → HalResult A
or_error (ok a) e = ok a
or_error (err _) e = err e

-- What the build generates for an enumeration of hal.proto.
pub record WireEnum {ℓ} (A : Type ℓ) : Type ℓ where
  pub number : A → ℕ
  pub of_number : ℕ → Option A
  pub of_number_iff : (n : ℕ) (a : A) → (of_number n ≡ some a) ↔ (n ≡ number a)

-- `as i32`
abbrev pub as_i32 {ℓ} : {A : Type ℓ} ⦃e : WireEnum A⦄ → A → ℕ
as_i32 ⦃e⦄ = e.number

-- `required_enum`
unfoldable pub required_enum {ℓ} : {A : Type ℓ} ⦃e : WireEnum A⦄ → ℕ → String → HalResult A
required_enum ⦃e⦄ value field =
    ok_or (e.of_number value) (invalid_message (concat field " has an unknown value"))

-- `Option::map(f).transpose()`
abbrev pub transpose {ℓ κ} :
    {A : Type ℓ} {B : Type κ} → (A → HalResult B) → Option A → HalResult (Option B)
transpose f none = ok none
transpose f (some a) = do b ← f a; ok (some b)

-- `into_iter().map(f).collect::<HalResult<Vec<_>>>()`: the first error ends it.
abbrev pub collect_all {ℓ κ} :
    {A : Type ℓ} {B : Type κ} → (A → HalResult B) → List A → HalResult (List B)
collect_all f [] = ok []
collect_all f (a ∷ as') = do b ← f a; bs ← collect_all f as'; ok (b ∷ bs)

-- `u8::try_from` and `u16::try_from` of a `u32`
abbrev pub u8_of : ℕ → HalError → HalResult ℕ
u8_of value e = if ltb value 256 then ok value else err e

abbrev pub u16_of : ℕ → HalError → HalResult ℕ
u16_of value e = if ltb value 65536 then ok value else err e

-- Every value of a list satisfies a predicate.
abbrev pub Every {ℓ κ} : {A : Type ℓ} → (A → Type κ) → List A → Type κ
Every P [] = Unit
Every P (a ∷ as') = P a × Every P as'

abbrev pub Within {ℓ κ} : {A : Type ℓ} → (A → Type κ) → Option A → Type κ
Within P none = Unit
Within P (some a) = P a

pub >>=-eq-ok {ℓ κ} :
    {A : Type ℓ} {B : Type κ} (r : HalResult A) (f : A → HalResult B) {b : B}
    → (r >>= f) ≡ ok b
    → (a : A) × (r ≡ ok a) × (f a ≡ ok b)
>>=-eq-ok (ok a) f h = (a, refl, h)
>>=-eq-ok (err e) f h = ground arith

pub ok_inj {ℓ} : {A : Type ℓ} {a b : A} → ok a ≡ ok b → a ≡ b
ok_inj h = ground arith

ap2_cons {ℓ} : {A : Type ℓ} {a b : A} {as' bs : List A} → a ≡ b → as' ≡ bs → a ∷ as' ≡ b ∷ bs
ap2_cons p q = cc

pub required_iff {ℓ} :
    {A : Type ℓ} (o : Option A) (field : String) (a : A) → (required o field ≡ ok a) ↔ (o ≡ some a)
unfolding required
required_iff none field a = ground arith
required_iff (some b) field a = ground arith

pub required_enum_iff {ℓ} :
    {A : Type ℓ} ⦃e : WireEnum A⦄ (n : ℕ) (field : String) (a : A)
    → (required_enum n field ≡ ok a) ↔ (n ≡ as_i32 a)
unfolding required_enum
required_enum_iff ⦃e⦄ n field a =
    (λ h. (e.of_number_iff n a).0 (ground arith), λ h. ground (arith, (e.of_number_iff n a).1 h))

-- A decoder that accepts exactly the encodings of the values with a property.
pub record Inverts {ℓ κ μ} {M : Type ℓ} {A : Type κ} (decode : M → HalResult A) (encode : A → M)
    (P : A → Type μ) : Type (ℓ ⊔ κ ⊔ μ) where
  pub accepts : (m : M) (a : A) → decode m ≡ ok a → (m ≡ encode a) × P a
  pub returns : (a : A) → P a → decode (encode a) ≡ ok a

-- An enumeration behind its number, translated value by value.
module _ {ℓ κ} {T : Type ℓ} ⦃e : WireEnum T⦄ {A : Type κ} (field : String)
    (of_tag : T → HalResult A) (to_tag : A → T)
    (translates : (t : T) (a : A) → (of_tag t ≡ ok a) ↔ (t ≡ to_tag a)) where
  enum_accepts :
      (n : ℕ) (a : A)
      → (required_enum n field >>= of_tag) ≡ ok a
      → (n ≡ as_i32 (to_tag a)) × Unit {0}
  enum_accepts n a h =
      let (t, p, q) = >>=-eq-ok (required_enum n field) of_tag h in
      (rw (← (translates t a).0 q) ((required_enum_iff n field t).0 p), tt)

  enum_returns : (a : A) → Unit {0} → (required_enum (as_i32 (to_tag a)) field >>= of_tag) ≡ ok a
  enum_returns a u =
      rw ((required_enum_iff (as_i32 (to_tag a)) field (to_tag a)).1 refl)
        ((translates (to_tag a) a).1 refl)

  pub enum-Inverts :
      Inverts (λ n. required_enum n field >>= of_tag) (λ a. as_i32 (to_tag a)) (λ a. Unit {0})
  enum-Inverts = record { accepts = enum_accepts; returns = enum_returns }

abbrev pub encode_option {ℓ κ} : {A : Type ℓ} {M : Type κ} → (A → M) → Option A → Option M
encode_option encode none = none
encode_option encode (some a) = some (encode a)

module _ {ℓ κ μ} {M : Type ℓ} {A : Type κ} {decode : M → HalResult A} {encode : A → M}
    {P : A → Type μ} (h : Inverts decode encode P) where
  pub inverts_iff : (m : M) (a : A) → (decode m ≡ ok a) ↔ ((m ≡ encode a) × P a)
  inverts_iff m a = (h.accepts m a, λ (e, p). rw e (h.returns a p))

  transpose_accepts :
      (m : Option M) (a : Option A)
      → transpose decode m ≡ ok a
      → (m ≡ encode_option encode a) × Within P a
  transpose_accepts none none e = ground arith
  transpose_accepts none (some a) e = ground arith
  transpose_accepts (some m) none e =
      absurd (let (b, _, eq) = >>=-eq-ok (decode m) (λ b. ok (some b)) e in ground (arith, eq))
  transpose_accepts (some m) (some a) e =
      let (b, p, eq) = >>=-eq-ok (decode m) (λ b. ok (some b)) e in
      ground (arith, h.accepts m b p, eq)

  transpose_returns : (a : Option A) → Within P a → transpose decode (encode_option encode a) ≡ ok a
  transpose_returns none p = refl
  transpose_returns (some a) p = rw (h.returns a p)

  pub transpose-Inverts : Inverts (transpose decode) (encode_option encode) (Within P)
  transpose-Inverts = record { accepts = transpose_accepts; returns = transpose_returns }

  collect_accepts :
      (ms : List M) (as' : List A)
      → collect_all decode ms ≡ ok as'
      → (ms ≡ map encode as') × Every P as'
  collect_accepts [] [] e = ground arith
  collect_accepts [] (a ∷ as') e = ground arith
  collect_accepts (m ∷ ms) bs e =
      let (b, p, eq) = >>=-eq-ok (decode m) (λ b. collect_all decode ms >>= λ bs. ok (b ∷ bs)) e in
      let (cs, q, eq') = >>=-eq-ok (collect_all decode ms) (λ bs. ok (b ∷ bs)) eq in
      let (head, pb) = h.accepts m b p in
      let (rest, pcs) = collect_accepts ms cs q in
      subst (λ x. (m ∷ ms ≡ map encode x) × Every P x) (ok_inj eq') (ap2_cons head rest, (pb, pcs))

  collect_returns : (as' : List A) → Every P as' → collect_all decode (map encode as') ≡ ok as'
  collect_returns [] p = refl
  collect_returns (a ∷ as') p = rw (h.returns a p.0) (rw (collect_returns as' p.1))

  pub collect_all-Inverts : Inverts (collect_all decode) (map encode) (Every P)
  collect_all-Inverts = record { accepts = collect_accepts; returns = collect_returns }
