-- ===== src/Core/Context.antt =====
-- `ErrorContext::new` and `validate_context_key` of crates/robot-hal-core/src/error.rs.
use robot_hal.Prelude.{
  ℕ, ◌+◌, ◌≤◌, ◌<◌, ◌≡◌, refl, String, Bool, true, false, not, ◌&&◌, ◌||◌, Option, none, some, List,
  [], ◌∷◌, Map, arith, length, ltb, leb, eqb, is_empty, is_ascii, byte_len, all_chars, contains_key,
  insert, get, string_eq, is_ascii_lowercase, is_ascii_alphanumeric, is_some, remove_of_missing, ap,
  ◌↔◌, ◌⊎◌, inl, inr,
}
use robot_hal.Core.Error.{
  ErrorContext, HalResult, HalError, ok, err, ◌>>◌, fail_if, invalid_argument_error, is_ok,
  result_cases,
}
use Prim.Native.Char.{code}

abbrev max_entries : ℕ
max_entries = 16

abbrev max_key_bytes : ℕ
max_key_bytes = 64

abbrev max_value_bytes : ℕ
max_value_bytes = 1024

abbrev max_total_bytes : ℕ
max_total_bytes = 8192

abbrev context_error : String → String → HalError
context_error name message = invalid_argument_error name "error.context.new" message

is_key_char : ℕ → Bool
is_key_char c = is_ascii_alphanumeric c || (eqb c b'_' || eqb c b'-')

-- `[a-z][a-zA-Z0-9_-]*`
unfoldable pub has_key_shape : String → Bool
unfolding is_key_char all_chars
has_key_shape String.[] = false
has_key_shape (String.◌∷◌ c s) = is_ascii_lowercase (code c) && all_chars is_key_char s

unfoldable validate_context_key : String → HalResult (Unit {0})
validate_context_key key = do
  fail_if (is_empty key) (context_error "error.context.key.empty" "context keys must not be empty")
  fail_if (ltb max_key_bytes (byte_len key))
      (context_error "error.context.key.too_long" "context keys must be at most 64 bytes")
  fail_if (not (is_ascii key))
      (context_error "error.context.key.non_ascii" "context keys must be ASCII")
  fail_if (not (has_key_shape key))
      (context_error "error.context.key.invalid" "context keys must match [a-z][a-zA-Z0-9_-]*")

-- The checks of one round of the loop, in order.
unfoldable pub check_entry : Map String String → ℕ → String → String → HalResult (Unit {0})
unfolding validate_context_key
check_entry context total key value = do
  fail_if (leb max_entries (length context))
      (context_error "error.context.too_many_entries" "context must contain at most 16 entries")
  validate_context_key key
  fail_if (ltb max_value_bytes (byte_len value))
      (context_error "error.context.value.too_long" "context values must be at most 1024 bytes")
  fail_if (contains_key key context)
      (context_error "error.context.duplicate_key" "context keys must be unique")
  fail_if (ltb max_total_bytes (total + (byte_len key + byte_len value)))
      (context_error "error.context.too_large" "context key/value bytes must total at most 8192")

-- The loop over the entries, with the context built so far and its bytes.
unfoldable collect : Map String String → ℕ → List (String × String) → HalResult ErrorContext
collect context total [] = ok (record { entries = context })
collect context total ((key, value) ∷ rest) =
    let next = collect (insert key value context) (total + (byte_len key + byte_len value)) rest in
    elim (check_entry context total key value) [ ok _ ↦ next | err e ↦ err e ]

-- `ErrorContext::new`
unfoldable pub new_context : List (String × String) → HalResult ErrorContext
unfolding collect
new_context entries = collect [] 0 entries

-- `[a-z][a-zA-Z0-9_-]*` by the codes of the characters.
abbrev IsKeyChar : ℕ → Type 0
IsKeyChar c =
    ((b'a' ≤ c) × (c ≤ b'z'))
    ⊎ (((b'A' ≤ c) × (c ≤ b'Z')) ⊎ (((b'0' ≤ c) × (c ≤ b'9')) ⊎ ((c ≡ b'_') ⊎ (c ≡ b'-'))))

abbrev KeyChars : String → Type 0
KeyChars String.[] = Unit {0}
KeyChars (String.◌∷◌ c s) = IsKeyChar (code c) × KeyChars s

abbrev KeyShape : String → Type 0
KeyShape String.[] = ⊥
KeyShape (String.◌∷◌ c s) = (b'a' ≤ code c) × (code c ≤ b'z') × KeyChars s

pub record IsKey (key : String) : Type 0 where
  pub short : byte_len key ≤ max_key_bytes
  pub shaped : KeyShape key

KeyChars-iff : (s : String) → (all_chars is_key_char s ≡ true) ↔ KeyChars s
unfolding all_chars is_key_char
KeyChars-iff String.[] = ground arith
KeyChars-iff (String.◌∷◌ c s) = ground (arith, KeyChars-iff s)

KeyShape-iff : (s : String) → (has_key_shape s ≡ true) ↔ KeyShape s
unfolding has_key_shape
KeyShape-iff String.[] = ground arith
KeyShape-iff (String.◌∷◌ c s) = ground (arith, KeyChars-iff s)

is_ascii-KeyChars : (s : String) → KeyChars s → is_ascii s ≡ true
unfolding is_ascii all_chars
is_ascii-KeyChars String.[] h = refl
is_ascii-KeyChars (String.◌∷◌ c s) h = ground (arith, h.0, is_ascii-KeyChars s h.1)

is_ascii-KeyShape : (s : String) → KeyShape s → is_ascii s ≡ true
unfolding is_ascii all_chars
is_ascii-KeyShape String.[] h = refl
is_ascii-KeyShape (String.◌∷◌ c s) h = ground (arith, h, is_ascii-KeyChars s h.2)

KeyShape-filled : (s : String) → KeyShape s → is_empty s ≡ false
KeyShape-filled String.[] h = absurd h
KeyShape-filled (String.◌∷◌ c s) h = refl

IsKey-iff : (key : String) → (validate_context_key key ≡ ok tt) ↔ IsKey key
unfolding validate_context_key
IsKey-iff key = (
  λ h. record { short = ground (arith, h); shaped = (KeyShape-iff key).0 (ground (arith, h)) },
  λ k. ground (
    arith,
    k.short,
    (KeyShape-iff key).1 k.shaped,
    is_ascii-KeyShape key k.shaped,
    KeyShape-filled key k.shaped,
  ),
)

abbrev total_bytes : Map String String → ℕ
total_bytes [] = 0
total_bytes ((key, value) ∷ m) = total_bytes m + (byte_len key + byte_len value)

-- Each key has the legal shape and occurs once, each value is short.
abbrev LegalEntries : Map String String → Type 0
LegalEntries [] = Unit {0}
LegalEntries ((key, value) ∷ m) =
    IsKey key × (byte_len value ≤ max_value_bytes) × (get key m ≡ none) × LegalEntries m

pub record IsBounded (m : Map String String) : Type 0 where
  pub few : length m ≤ max_entries
  pub small : total_bytes m ≤ max_total_bytes
  pub legal : LegalEntries m

insert_missing :
    (key value : String) (m : Map String String)
    → get key m ≡ none
    → insert key value m ≡ ((key, value) ∷ m)
unfolding insert
insert_missing key value m h = ap (λ r. (key, value) ∷ r) (remove_of_missing key m h)

is_some-none {ℓ} : {A : Type ℓ} → (o : Option A) → is_some o ≡ false → o ≡ none
is_some-none none h = refl
is_some-none (some a) h = ground arith

-- What a passed round has checked.
record Passed (context : Map String String) (total : ℕ) (key value : String) : Type 0 where
  room : length context < max_entries
  shape : validate_context_key key ≡ ok tt
  short : byte_len value ≤ max_value_bytes
  fresh : get key context ≡ none
  fits : total + (byte_len key + byte_len value) ≤ max_total_bytes

check_entry-Passed :
    (context : Map String String) (total : ℕ) (key value : String)
    → check_entry context total key value ≡ ok tt
    → Passed context total key value
unfolding check_entry
check_entry-Passed context total key value h = record {
  room = ground arith;
  shape = ground arith;
  short = ground arith;
  fresh = is_some-none (get key context) (ground arith);
  fits = ground arith;
}

-- The entries in the opposite order, in front of a context.
abbrev pub prepend : List (String × String) → Map String String → Map String String
prepend [] context = context
prepend (entry ∷ rest) context = prepend rest (entry ∷ context)

-- A passed round keeps the context bounded.
push-IsBounded :
    (context : Map String String) (key value : String)
    → IsBounded context
    → Passed context (total_bytes context) key value
    → IsBounded ((key, value) ∷ context)
push-IsBounded context key value b p = record {
  few = omega (arith, p.room);
  small = omega (arith, p.fits);
  legal = ((IsKey-iff key).0 p.shape, p.short, p.fresh, b.legal);
}

pop-IsBounded :
    (context : Map String String) (key value : String)
    → IsBounded ((key, value) ∷ context)
    → IsBounded context
pop-IsBounded context key value b = record {
  few = omega (arith, b.few);
  small = omega (arith, b.small);
  legal = b.legal.3;
}

prepend-IsBounded :
    (rest : List (String × String)) (context : Map String String)
    → IsBounded (prepend rest context)
    → IsBounded context
prepend-IsBounded [] context b = b
prepend-IsBounded ((key, value) ∷ rest) context b =
    pop-IsBounded context key value (prepend-IsBounded rest ((key, value) ∷ context) b)

-- A round passes where the context is bounded once the entry is in it.
check_entry_of_IsBounded :
    (context : Map String String) (key value : String)
    → IsBounded ((key, value) ∷ context)
    → check_entry context (total_bytes context) key value ≡ ok tt
unfolding check_entry
check_entry_of_IsBounded context key value b =
    let few = b.few in
    let small = b.small in
    let legal = b.legal in let shape = (IsKey-iff key).1 legal.0 in ground arith

collect-IsBounded :
    (rest : List (String × String)) (context : Map String String)
    → IsBounded context
    → is_ok (collect context (total_bytes context) rest) ≡ true
    → IsBounded (prepend rest context)
unfolding collect
collect-IsBounded [] context b h = b
collect-IsBounded ((key, value) ∷ rest) context b h =
    elim (result_cases (check_entry context (total_bytes context) key value)) [
      | inl passes ↦
          let passed = check_entry-Passed context (total_bytes context) key value passes in
          let same = insert_missing key value context passed.fresh in
          collect-IsBounded rest ((key, value) ∷ context)
            (push-IsBounded context key value b passed) (ground arith)
      | inr (e, fails) ↦ ground arith
    ]

collect_of_IsBounded :
    (rest : List (String × String)) (context : Map String String)
    → IsBounded (prepend rest context)
    → collect context (total_bytes context) rest ≡ ok (record { entries = prepend rest context })
unfolding collect
collect_of_IsBounded [] context b = refl
collect_of_IsBounded ((key, value) ∷ rest) context b =
    let bounded = prepend-IsBounded rest ((key, value) ∷ context) b in
    let passes = check_entry_of_IsBounded context key value bounded in
    let same = insert_missing key value context bounded.legal.2 in
    let next = collect_of_IsBounded rest ((key, value) ∷ context) b in ground arith

-- `ErrorContext::new` accepts a list of entries exactly when there are at most 16 of them, each key
-- has the shape `[a-z][a-zA-Z0-9_-]*` in at most 64 bytes and occurs once, each value has at most
-- 1024 bytes and all bytes together are at most 8192; the context then holds exactly the entries.
pub new_context_iff :
    (entries : List (String × String))
    → ((is_ok (new_context entries) ≡ true) ↔ IsBounded (prepend entries []))
      × (is_ok (new_context entries) ≡ true
          → new_context entries ≡ ok (record { entries = prepend entries [] }))
unfolding new_context
new_context_iff entries =
    let empty : IsBounded [] = record { few = omega arith; small = omega arith; legal = tt } in
    let bounded = collect-IsBounded entries [] empty in
    (
      (bounded, λ b. ap is_ok (collect_of_IsBounded entries [] b)),
      λ h. collect_of_IsBounded entries [] (bounded h),
    )
