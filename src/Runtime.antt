-- ===== src/Runtime.antt =====
-- crates/robot-hal-runtime: the lease tables, the session lifecycle, the events and the registry of
-- serial sessions.
pub mod Errors
pub mod LeaseTable
pub mod CanLeases
pub mod CanLeaseTable
pub mod Lifecycle
pub mod Events
pub mod Sessions
pub mod Registry
pub mod GpioManager
pub mod CanActor
pub mod CanQueue
