-- ===== src/Devices.antt =====
-- tools/cmd/invirtio/devices.go: enabling and disabling devices, and uninstalling.
pub mod Udev
pub mod Disable
pub mod Uninstall
pub mod Enable
mod Tests
