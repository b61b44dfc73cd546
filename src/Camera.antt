-- ===== src/Camera.antt =====
-- crates/robot-hal-camera and adapters/shared-memory: camera formats and the ring of frames that a
-- broker shares with its clients.
pub mod Format
pub mod Layout
pub mod Slot
pub mod Ring
pub mod Reader
mod Tests
