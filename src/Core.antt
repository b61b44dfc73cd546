-- ===== src/Core.antt =====
-- crates/robot-hal-core: identities, errors, leases, capabilities and the resolution of resources.
pub mod Names
pub mod Error
pub mod Identifier
pub mod Lease
pub mod Context
pub mod Capability
pub mod Resolution
mod Tests
