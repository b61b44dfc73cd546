-- ===== src/Runtime/Errors.antt =====
-- `runtime_error` of crates/robot-hal-runtime/src/lib.rs.
use robot_hal.Prelude.{String, Bool}
use robot_hal.Core.Names.{ErrorCategory}
use robot_hal.Core.Error.{HalError, build_error}

-- The `expect` on `HalError::new` holds for identifiers (`Core.Identifier.new_error_iff`).
abbrev pub runtime_error : String → ErrorCategory → String → Bool → String → HalError
runtime_error name category operation retryable message =
    build_error name category operation retryable message
