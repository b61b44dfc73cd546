-- ===== src/Core/Error.antt =====
-- crates/robot-hal-core/src/error.rs: `HalError` and `HalResult`, with the monad of `?`.
use robot_hal.Prelude.{
  String, Bool, true, false, Option, none, some, [], Map, ◌⊎◌, inl, inr, ◌≡◌, refl,
}
use robot_hal.Core.Names.{ErrorName, OperationName, ResourceId, ErrorCategory}

-- A map from keys to values; the order of a `BTreeMap` is not kept.
pub record ErrorContext : Type 0 where
  pub entries : Map String String

pub record HalError : Type 0 where
  pub name : ErrorName
  pub category : ErrorCategory
  pub operation : OperationName
  pub retryable : Bool
  pub debug_message : String
  pub resource_id : Option ResourceId
  pub platform_code : Option String
  pub vendor_code : Option String
  pub context : ErrorContext

pub data HalResult {ℓ} (A : Type ℓ) : Type ℓ where
  ok : A → HalResult A
  err : HalError → HalResult A

infixl 5 ◌>>=◌ ◌>>◌
abbrev pub ◌>>=◌ {ℓ κ} : {A : Type ℓ} {B : Type κ} → HalResult A → (A → HalResult B) → HalResult B
ok a >>= f = f a
err e >>= f = err e

abbrev pub ◌>>◌ {ℓ} : {B : Type ℓ} → HalResult (Unit {0}) → HalResult B → HalResult B
m >> k = m >>= λ _. k

-- `if cond { return Err(e) }`
abbrev pub fail_if : Bool → HalError → HalResult (Unit {0})
fail_if true e = err e
fail_if false e = ok tt

-- `ok_or_else`
abbrev pub ok_or {ℓ} : {A : Type ℓ} → Option A → HalError → HalResult A
ok_or none e = err e
ok_or (some a) e = ok a

abbrev empty_context : ErrorContext
empty_context = record { entries = [] }

-- The error that `HalError::new` builds once its name and operation have been accepted.
abbrev pub build_error : String → ErrorCategory → String → Bool → String → HalError
build_error name category operation retryable message = record {
  name = record { as_str = name };
  category = category;
  operation = record { as_str = operation };
  retryable = retryable;
  debug_message = message;
  resource_id = none;
  platform_code = none;
  vendor_code = none;
  context = empty_context;
}

-- Its `expect` is discharged by `Identifier.new-of_IsIdentifier`.
abbrev pub invalid_argument_error : String → String → String → HalError
invalid_argument_error name operation message =
    build_error name ErrorCategory.invalid_argument operation false message

abbrev pub with_resource_id : HalError → ResourceId → HalError
with_resource_id e r = record e { resource_id = some r }

abbrev pub with_context : HalError → ErrorContext → HalError
with_context e c = record e { context = c }

-- `Result::map_err` on a result without a value
abbrev pub map_err {ℓ} : {A : Type ℓ} → (HalError → HalError) → HalResult A → HalResult A
map_err f (ok a) = ok a
map_err f (err e) = err (f e)

abbrev pub is_ok {ℓ} : {A : Type ℓ} → HalResult A → Bool
is_ok (ok a) = true
is_ok (err e) = false

-- The name of the error that a call returns.
abbrev pub error_name {ℓ} : {A : Type ℓ} → HalResult A → Option String
error_name (ok a) = none
error_name (err e) = some e.name.as_str

-- To split on the result of a check and keep the equation.
pub result_cases : (r : HalResult (Unit {0})) → (r ≡ ok tt) ⊎ ((e : HalError) × (r ≡ err e))
result_cases (ok tt) = inl refl
result_cases (err e) = inr (e, refl)

pub result-cases : (x : HalResult (Unit {0})) → (x ≡ ok tt) ⊎ ((e : HalError) × (x ≡ err e))
result-cases (ok u) = inl refl
result-cases (err e) = inr (e, refl)
