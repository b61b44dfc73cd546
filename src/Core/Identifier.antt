-- ===== src/Core/Identifier.antt =====
-- crates/robot-hal-core/src/capability.rs (`validate_identifier`), the `parse` functions of the
-- newtypes, and `HalError::new` with its builders of error.rs.
use robot_hal.Prelude.{
  ◌≤◌, ◌≡◌, ◌↔◌, String, Bool, true, false, some, arith, ltb, not, byte_len, is_empty, is_ascii,
  concat,
}
use robot_hal.Core.Names.{
  ErrorName, OperationName, ResourceId, Endpoint, LeaseId, OwnerId, SessionId, ErrorCategory,
}
use robot_hal.Core.Error.{
  HalError, HalResult, ok, ◌>>=◌, ◌>>◌, fail_if, build_error, invalid_argument_error,
}

unfoldable pub validate_identifier : String → String → HalResult (Unit {0})
validate_identifier field value = do
  fail_if (is_empty value)
      (invalid_argument_error (concat field ".empty") field "identifier must not be empty")
  fail_if (ltb 255 (byte_len value)) (
      invalid_argument_error (concat field ".too_long") field
        "identifier must be at most 255 bytes")
  fail_if (not (is_ascii value))
      (invalid_argument_error (concat field ".non_ascii") field "identifier must be ASCII")
  ok tt

unfoldable parse_error_name : String → HalResult ErrorName
parse_error_name value = do validate_identifier "error.name" value; ok (record { as_str = value })

unfoldable parse_operation_name : String → HalResult OperationName
parse_operation_name value = do
  validate_identifier "operation.name" value
  ok (record { as_str = value })

unfoldable pub parse_resource_id : String → HalResult ResourceId
parse_resource_id value = do validate_identifier "resource.id" value; ok (record { as_str = value })

unfoldable pub parse_lease_id : String → HalResult LeaseId
parse_lease_id value = do validate_identifier "lease.id" value; ok (record { as_str = value })

unfoldable parse_owner_id : String → HalResult OwnerId
parse_owner_id value = do validate_identifier "owner.id" value; ok (record { as_str = value })

unfoldable pub parse_session_id : String → HalResult SessionId
parse_session_id value = do validate_identifier "session.id" value; ok (record { as_str = value })

-- `Endpoint::new`
unfoldable pub new_endpoint : String → HalResult Endpoint
new_endpoint value = do
  fail_if (is_empty value)
      (invalid_argument_error "endpoint.empty" "endpoint.new" "endpoint must not be empty")
  fail_if (ltb 4096 (byte_len value)) (
      invalid_argument_error "endpoint.too_long" "endpoint.new"
        "endpoint must be at most 4096 bytes")
  ok (record { as_str = value })

-- `HalError::new`
unfoldable pub new_error : String → ErrorCategory → String → Bool → String → HalResult HalError
unfolding parse_error_name parse_operation_name
new_error name category operation retryable message = do
  n ← parse_error_name name
  o ← parse_operation_name operation
  ok (record (build_error name category operation retryable message) { name = n; operation = o })

unfoldable pub with_platform_code : HalError → String → HalResult HalError
with_platform_code e code = do
  validate_identifier "error.platform_code" code
  ok (record e { platform_code = some code })

unfoldable pub with_vendor_code : HalError → String → HalResult HalError
with_vendor_code e code = do
  validate_identifier "error.vendor_code" code
  ok (record e { vendor_code = some code })

-- What an identifier is: 1 to 255 bytes of ASCII.
pub record IsIdentifier (value : String) : Type 0 where
  pub filled : is_empty value ≡ false
  pub short : byte_len value ≤ 255
  pub ascii : is_ascii value ≡ true

pub validate_identifier_iff :
    (field value : String) → (validate_identifier field value ≡ ok tt) ↔ IsIdentifier value
unfolding validate_identifier
validate_identifier_iff field value = ground arith

-- `HalError::new` accepts a name and an operation exactly when both are identifiers (1 to 255 bytes
-- of ASCII), and then returns the error with the given parts and no code, resource or context.
pub new_error_iff :
    (name operation message : String) (category : ErrorCategory) (retryable : Bool)
    → (new_error name category operation retryable message
        ≡ ok (build_error name category operation retryable message))
      ↔ (IsIdentifier name × IsIdentifier operation)
unfolding new_error validate_identifier
new_error_iff name operation message category retryable = ground arith
