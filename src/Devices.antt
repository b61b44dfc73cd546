-- ===== src/Devices.antt =====
-- crates/robot-hal-usb, robot-hal-gpio and robot-hal-serial: the values of the device contracts.
pub mod Usb
pub mod Gpio
pub mod Serial
