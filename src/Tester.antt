-- ===== src/Tester.antt =====
-- tools/cmd/invirtio-test: the commands that move devices between drivers.
pub mod Bind
pub mod Platform
pub mod Guests
mod Tests
