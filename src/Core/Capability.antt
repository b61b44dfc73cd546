-- ===== src/Core/Capability.antt =====
-- `CapabilityId::parse` of crates/robot-hal-core/src/capability.rs: `<namespace>.<name>/v<number>`.
use Prim.Native.Char.{Char, code}
use Prim.Native.String.{◌++◌}
use Prim.Native.String.append
use robot_hal.Prelude.{
  ℕ, ◌+◌, ◌-◌, ◌*◌, ◌≡◌, ◌↔◌, refl, sym, ap, String, Bool, true, false, not, ◌&&◌, ◌||◌, Option,
  none, some, inl, inr, List, [], ◌∷◌, arith, any, ltb, leb, eqb, is_empty, all_chars,
  if◌then◌else◌, Bool-cases, Option-cases, is_ascii_digit, subst, ◌∙◌,
}
use robot_hal.Core.Names.{CapabilityId}
use robot_hal.Core.Lease.{u64_max}
use robot_hal.Core.Error.{
  HalError, HalResult, ok, ◌>>=◌, ◌>>◌, fail_if, ok_or, invalid_argument_error,
}
use robot_hal.Core.Identifier.{validate_identifier, IsIdentifier, validate_identifier_iff}

-- `split_once` at a character
unfoldable pub split_once : ℕ → String → Option (String × String)
split_once c String.[] = none
split_once c (String.◌∷◌ x s) =
    let rest = split_once c s in
    if eqb (code x) c
    then some (String.[], s)
    else elim rest [ none ↦ none | some (a, b) ↦ some (String.◌∷◌ x a, b) ]

abbrev push_char : Char → List String → List String
push_char x [] = []
push_char x (segment ∷ segments) = String.◌∷◌ x segment ∷ segments

-- `split` at a character
unfoldable pub split_on : ℕ → String → List String
split_on c String.[] = String.[] ∷ []
split_on c (String.◌∷◌ x s) =
    let rest = split_on c s in if eqb (code x) c then String.[] ∷ rest else push_char x rest

-- `contains` of a character
unfoldable pub has_char : ℕ → String → Bool
has_char c String.[] = false
has_char c (String.◌∷◌ x s) = eqb (code x) c || has_char c s

abbrev starts_with_v : String → Bool
starts_with_v String.[] = false
starts_with_v (String.◌∷◌ x s) = eqb (code x) b'v'

-- `[1..]` of a text that starts with one byte
abbrev tail : String → String
tail String.[] = String.[]
tail (String.◌∷◌ x s) = s

unfoldable pub digits_value : ℕ → String → ℕ
digits_value value String.[] = value
digits_value value (String.◌∷◌ x s) = digits_value (value * 10 + (code x - b'0')) s

-- `parse::<u64>` of a text of digits
unfoldable pub parse_u64 : String → Option ℕ
unfolding digits_value
parse_u64 s = if leb (digits_value 0 s) u64_max then some (digits_value 0 s) else none

abbrev is_positive : Option ℕ → Bool
is_positive none = false
is_positive (some n) = ltb 0 n

abbrev capability_error : String → HalError
capability_error message = invalid_argument_error "capability.id.invalid" "capability.parse" message

unfoldable pub is_version_number : String → Bool
unfolding parse_u64
is_version_number number =
    not (is_empty number) && (all_chars is_ascii_digit number && is_positive (parse_u64 number))

unfoldable pub is_contract : String → Bool
is_contract contract = not (any is_empty (split_on b'.' contract)) && has_char b'.' contract

-- `CapabilityId::parse`
unfoldable pub parse_capability_id : String → HalResult CapabilityId
unfolding is_contract is_version_number
parse_capability_id value = do
  validate_identifier "capability.id" value
  (contract, version) ← ok_or (split_once b'/' value) (capability_error "missing version")
  fail_if (not (is_contract contract) || not (starts_with_v version))
      (capability_error "expected <namespace>.<name>/v<positive integer>")
  fail_if (not (is_version_number (tail version)))
      (capability_error "version must be a positive integer")
  ok (record { as_str = value })

nil_append : (t : String) → (String.[] ++ t) ≡ t
nil_append t = λ i. append.nil t i

cons_append : (x : Char) (s t : String) → (String.◌∷◌ x s ++ t) ≡ String.◌∷◌ x (s ++ t)
cons_append x s t = λ i. append.cons x s t i

-- What stands before and behind the first of a character.
record IsSplit (c : ℕ) (s a b : String) : Type 0 where
  mark : Char
  is_mark : code mark ≡ c
  parts : s ≡ (a ++ String.◌∷◌ mark b)
  first : has_char c a ≡ false

split_once-IsSplit : (c : ℕ) (s a b : String) → split_once c s ≡ some (a, b) → IsSplit c s a b
unfolding split_once has_char
split_once-IsSplit c String.[] a b h = absurd (ground arith)
split_once-IsSplit c (String.◌∷◌ x s) a b h = elim (Bool-cases (eqb (code x) c)) [
  | inl e ↦
      let same : ◌≡◌ {A = String × String} (String.[], s) (a, b) = ground arith in
      subst (λ (p : String × String). IsSplit c (String.◌∷◌ x s) p.0 p.1) same
        (record {
          mark = x;
          is_mark = ground arith;
          parts = sym (nil_append (String.◌∷◌ x s));
          first = refl;
        })
  | inr e ↦ elim (Option-cases (split_once c s)) [
    | inl none_left ↦ absurd (ground arith)
    | inr ((a', b'), found) ↦
        let same : ◌≡◌ {A = String × String} (String.◌∷◌ x a', b') (a, b) = ground arith in
        let split = split_once-IsSplit c s a' b' found in
        subst (λ (p : String × String). IsSplit c (String.◌∷◌ x s) p.0 p.1) same
          (record {
            mark = split.mark;
            is_mark = split.is_mark;
            parts =
                ap (λ t. String.◌∷◌ x t) split.parts
                ∙ sym (cons_append x a' (String.◌∷◌ split.mark b'));
            first = ground (arith, e, split.first);
          })
  ]
]

split_once_of_IsSplit :
    (c : ℕ) (a b : String) (mark : Char)
    → code mark ≡ c
    → has_char c a ≡ false
    → split_once c (a ++ String.◌∷◌ mark b) ≡ some (a, b)
unfolding split_once has_char
split_once_of_IsSplit c String.[] b mark e h = rw (nil_append (String.◌∷◌ mark b)) (ground arith)
split_once_of_IsSplit c (String.◌∷◌ x a) b mark e h =
    let next = split_once_of_IsSplit c a b mark e (ground arith) in
    rw (cons_append x a (String.◌∷◌ mark b)) (ground arith)

starts_v :
    (s : String)
    → starts_with_v s ≡ true
    → (v : Char) × (code v ≡ b'v') × (s ≡ String.◌∷◌ v (tail s))
starts_v String.[] h = absurd (ground arith)
starts_v (String.◌∷◌ x s) h = (x, ground arith, refl)

-- `<contract>/v<number>`, with the first slash of the text.
pub record IsCapability (value : String) : Type 0 where
  pub identifier : IsIdentifier value
  pub contract : String
  pub number : String
  pub slash : Char
  pub v : Char
  pub is_slash : code slash ≡ b'/'
  pub is_v : code v ≡ b'v'
  pub parts : value ≡ (contract ++ String.◌∷◌ slash (String.◌∷◌ v number))
  pub first_slash : has_char b'/' contract ≡ false
  pub legal_contract : is_contract contract ≡ true
  pub legal_number : is_version_number number ≡ true

parse-IsCapability :
    (value : String)
    → parse_capability_id value ≡ ok (record { as_str = value })
    → IsCapability value
unfolding parse_capability_id
parse-IsCapability value h = elim (Option-cases (split_once b'/' value)) [
  | inl e ↦ absurd (ground (arith, validate_identifier_iff "capability.id" value))
  | inr ((contract, version), e) ↦
      let valid : validate_identifier "capability.id" value ≡ ok tt = ground arith in
      let split = split_once-IsSplit b'/' value contract version e in
      let (v, is_v, whole) = starts_v version (ground arith) in
      record {
        identifier = (validate_identifier_iff "capability.id" value).0 valid;
        contract = contract;
        number = tail version;
        slash = split.mark;
        v = v;
        is_slash = split.is_mark;
        is_v = is_v;
        parts = split.parts ∙ ap (λ t. contract ++ String.◌∷◌ split.mark t) whole;
        first_slash = split.first;
        legal_contract = ground arith;
        legal_number = ground arith;
      }
]

parse_of_IsCapability :
    (value : String)
    → IsCapability value
    → parse_capability_id value ≡ ok (record { as_str = value })
unfolding parse_capability_id
parse_of_IsCapability value h =
    let valid = (validate_identifier_iff "capability.id" value).1 h.identifier in
    let contract = h.legal_contract in
    let number = h.legal_number in
    let v = h.is_v in
    let split : split_once b'/' value ≡ some (h.contract, String.◌∷◌ h.v h.number) = rw h.parts (
      split_once_of_IsSplit b'/' h.contract (String.◌∷◌ h.v h.number) h.slash h.is_slash
        h.first_slash) in
    ground arith

-- `CapabilityId::parse` accepts a text, unchanged, exactly when it is an identifier that splits at
-- its first slash into a contract and a `v` with a number: the contract has a dot and no empty part
-- between dots, and the number consists of digits and is a positive `u64`.
parse_capability_id_iff :
    (value : String)
    → (parse_capability_id value ≡ ok (record { as_str = value })) ↔ IsCapability value
parse_capability_id_iff value = (parse-IsCapability value, parse_of_IsCapability value)
