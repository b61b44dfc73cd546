-- ===== src/Runtime/Lifecycle.antt =====
-- crates/robot-hal-runtime/src/session_lifecycle.rs: the phases of an exclusive session.
use Prim.Native.String.{◌++◌}
use robot_hal.Prelude.{String, Bool, true, false}
use robot_hal.Core.Names.{conflict}
use robot_hal.Core.Error.{HalError, HalResult, ok, err}
use robot_hal.Runtime.Errors.{runtime_error}

pub data SessionLifecycle : Type 0 where
  opening active closing : SessionLifecycle

abbrev is_active : SessionLifecycle → Bool
is_active active = true
is_active _ = false

abbrev pub is_closing : SessionLifecycle → Bool
is_closing closing = true
is_closing _ = false

-- `{:?}` of a phase
abbrev shown : SessionLifecycle → String
shown opening = "Opening"
shown active = "Active"
shown closing = "Closing"

abbrev invalid_transition : String → SessionLifecycle → SessionLifecycle → String → HalError
invalid_transition operation actual expected message =
    runtime_error "runtime.session.lifecycle.invalid_transition" conflict operation false (
      "session lifecycle is "
      ++ (shown actual ++ (", expected " ++ (shown expected ++ (": " ++ message)))))

unfoldable pub commit_open : SessionLifecycle → String → HalResult SessionLifecycle
commit_open opening operation = ok active
commit_open state operation =
    err (invalid_transition operation state active "only an opening session can become active")

unfoldable pub begin_close : SessionLifecycle → String → HalResult SessionLifecycle
begin_close opening operation = ok closing
begin_close active operation = ok closing
begin_close closing operation = ok closing

abbrev inactive_error : String → HalError
inactive_error operation =
    runtime_error "runtime.session.closed" conflict operation false
      "the session is not active and cannot admit new I/O"

unfoldable pub admit_io : SessionLifecycle → String → HalResult (Unit {0})
admit_io active operation = ok tt
admit_io _ operation = err (inactive_error operation)
