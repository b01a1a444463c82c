-- ===== src/Config.antt =====
-- tools/cmd/invirtio/config.go: the configuration's devices, their names and sizes.
pub mod Names
pub mod Sizes
pub mod Devices
pub mod Order
mod Tests
