-- ===== src/Report.antt =====
-- What the commands status and list show: tools/cmd/invirtio/status.go, memory.go and list.go.
pub mod Printable
pub mod Memory
pub mod Sizes
pub mod Device
pub mod Listing
mod Tests
