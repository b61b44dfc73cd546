-- ===== src/Can.antt =====
-- crates/robot-hal-can: frames, filters and link configurations of the CAN contract.
pub mod Frame
pub mod Filter
pub mod Config
pub mod Adapter
