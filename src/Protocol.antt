-- ===== src/Protocol.antt =====
-- crates/robot-hal-protocol: the conversions between messages and values.
pub mod Wire
pub mod CanEnums
pub mod CoreEnums
pub mod DeviceEnums
pub mod SerialEnums
pub mod CanFrames
pub mod CanLinks
pub mod Sessions
pub mod Errors
pub mod CanRequests
pub mod Versions
pub mod SerialPorts
pub mod UsbTransfers
pub mod GpioLines
pub mod Issued
mod Tests
