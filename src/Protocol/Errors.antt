-- ===== src/Protocol/Errors.antt =====
-- crates/robot-hal-protocol/src/conversion.rs: errors on the wire, with the message `Error` of
-- proto/seeed/hal/v1/hal.proto. The entries of a context stand in the order of the sender.
use robot_hal.Prelude.{
  ℕ, ◌≡◌, ◌↔◌, refl, String, Bool, Option, none, some, List, [], arith, is_empty, unwrap_or,
  if◌then◌else◌,
}
use robot_hal.Core.Error.{
  HalError, HalResult, ok, err, ◌>>=◌, with_resource_id, with_context, build_error,
}
use robot_hal.Protocol.CoreEnums.{
  ErrorCategoryTag, error_category_conflict, error_category_internal,
  error_category_invalid_argument, error_category_not_found, error_category_unavailable,
  error_category_unspecified, error_category_wire,
}
use robot_hal.Protocol.Wire.{
  Inverts, Within, as_i32, enum-Inverts, invalid_message, or_error, required_enum,
}
use robot_hal.Core.Names.{
  ErrorCategory, ResourceId, conflict, internal, invalid_argument, not_found, unavailable,
}
use robot_hal.Core.Identifier.{
  IsIdentifier, new_error, parse_resource_id, validate_identifier_iff, with_platform_code,
  with_vendor_code, new_error_iff,
}
use robot_hal.Core.Context.{IsBounded, new_context, prepend, new_context_iff}

pub record ErrorMessage : Type 0 where
  pub name : String
  pub category : ℕ
  pub operation : String
  pub retryable : Bool
  pub debug_message : String
  pub resource_id : String
  pub platform_code : String
  pub vendor_code : String
  pub context : List (String × String)

abbrev category_of_tag : ErrorCategoryTag → HalResult ErrorCategory
category_of_tag error_category_invalid_argument = ok invalid_argument
category_of_tag error_category_not_found = ok not_found
category_of_tag error_category_conflict = ok conflict
category_of_tag error_category_unavailable = ok unavailable
category_of_tag error_category_internal = ok internal
category_of_tag error_category_unspecified = err (invalid_message "error category is required")

abbrev category_to_proto : ErrorCategory → ErrorCategoryTag
category_to_proto invalid_argument = error_category_invalid_argument
category_to_proto not_found = error_category_not_found
category_to_proto conflict = error_category_conflict
category_to_proto unavailable = error_category_unavailable
category_to_proto internal = error_category_internal

-- The three optional parts of `error_from_proto`: an empty text is an absent one.
unfoldable pub add_resource_id : String → HalError → HalResult HalError
unfolding parse_resource_id
add_resource_id text e = if is_empty text then ok e else do
  id ← or_error (parse_resource_id text) (invalid_message "error has an invalid resource_id")
  ok (with_resource_id e id)

unfoldable pub add_platform_code : String → HalError → HalResult HalError
unfolding with_platform_code
add_platform_code text e =
    if is_empty text
    then ok e
    else or_error (with_platform_code e text) (invalid_message "error has an invalid platform_code")

unfoldable pub add_vendor_code : String → HalError → HalResult HalError
unfolding with_vendor_code
add_vendor_code text e =
    if is_empty text
    then ok e
    else or_error (with_vendor_code e text) (invalid_message "error has an invalid vendor_code")

-- `error_from_proto`
unfoldable pub error_from_proto : ErrorMessage → HalResult HalError
unfolding required_enum
error_from_proto m = do
  category ← required_enum m.category "category" >>= category_of_tag
  plain ←
      or_error (new_error m.name category m.operation m.retryable m.debug_message)
        (invalid_message "error has invalid name or operation")
  named ← add_resource_id m.resource_id plain
  coded ← add_platform_code m.platform_code named
  full ← add_vendor_code m.vendor_code coded
  context ← or_error (new_context m.context) (invalid_message "error has an invalid context")
  ok (with_context full context)

abbrev text_of : Option ResourceId → String
text_of none = ""
text_of (some r) = r.as_str

-- `From<&HalError>`
abbrev pub error_to_proto : HalError → ErrorMessage
error_to_proto e = record {
  name = e.name.as_str;
  category = as_i32 (category_to_proto e.category);
  operation = e.operation.as_str;
  retryable = e.retryable;
  debug_message = e.debug_message;
  resource_id = text_of e.resource_id;
  platform_code = unwrap_or "" e.platform_code;
  vendor_code = unwrap_or "" e.vendor_code;
  context = e.context.entries;
}

-- What every error of the source satisfies by construction.
pub record IsError (e : HalError) : Type 0 where
  pub named : IsIdentifier e.name.as_str
  pub located : IsIdentifier e.operation.as_str
  pub resource : Within (λ (r : ResourceId). IsIdentifier r.as_str) e.resource_id
  pub platform : Within IsIdentifier e.platform_code
  pub vendor : Within IsIdentifier e.vendor_code
  pub bounded : IsBounded (prepend e.context.entries [])

category_translates :
    (t : ErrorCategoryTag) (c : ErrorCategory)
    → (category_of_tag t ≡ ok c) ↔ (t ≡ category_to_proto c)
category_translates t invalid_argument = ground arith
category_translates t not_found = ground arith
category_translates t conflict = ground arith
category_translates t unavailable = ground arith
category_translates t internal = ground arith

category_inverts :
    Inverts
      (λ n. required_enum n "category" >>= category_of_tag)
      (λ c. as_i32 (category_to_proto c))
      (λ c. Unit {0})
category_inverts = enum-Inverts "category" category_of_tag category_to_proto category_translates

resource_returns :
    (r : Option ResourceId) (e : HalError)
    → Within (λ (r : ResourceId). IsIdentifier r.as_str) r
    → e.resource_id ≡ none
    → add_resource_id (text_of r) e ≡ ok (record e { resource_id = r })
unfolding add_resource_id
resource_returns none e h fresh = ground arith
resource_returns (some r) e h fresh =
    let full = h.filled in
    ground (arith, (validate_identifier_iff "resource.id" r.as_str).1 h, full)

platform_returns :
    (c : Option String) (e : HalError)
    → Within IsIdentifier c
    → e.platform_code ≡ none
    → add_platform_code (unwrap_or "" c) e ≡ ok (record e { platform_code = c })
unfolding add_platform_code
platform_returns none e h fresh = ground arith
platform_returns (some c) e h fresh =
    let full = h.filled in
    ground (arith, (validate_identifier_iff "error.platform_code" c).1 h, full)

vendor_returns :
    (c : Option String) (e : HalError)
    → Within IsIdentifier c
    → e.vendor_code ≡ none
    → add_vendor_code (unwrap_or "" c) e ≡ ok (record e { vendor_code = c })
unfolding add_vendor_code
vendor_returns none e h fresh = ground arith
vendor_returns (some c) e h fresh =
    let full = h.filled in ground (arith, (validate_identifier_iff "error.vendor_code" c).1 h, full)

-- An error with legal parts is received as it was sent, its context with the same entries.
pub error_returns :
    (e : HalError)
    → IsError e
    → error_from_proto (error_to_proto e)
      ≡ ok (with_context e (record { entries = prepend e.context.entries [] }))
unfolding error_from_proto
error_returns e h =
    let plain =
      build_error e.name.as_str e.category e.operation.as_str e.retryable e.debug_message in
    let named = record plain { resource_id = e.resource_id } in
    let coded = record named { platform_code = e.platform_code } in
    ground (
      arith,
      category_inverts.returns e.category tt,
      (new_error_iff e.name.as_str e.operation.as_str e.debug_message e.category e.retryable).1
          (h.named, h.located),
      resource_returns e.resource_id plain h.resource refl,
      platform_returns e.platform_code named h.platform refl,
      vendor_returns e.vendor_code coded h.vendor refl,
      (new_context_iff e.context.entries).1 ((new_context_iff e.context.entries).0.1 h.bounded),
    )
