-- ===== src/Console.antt =====
-- tools/cmd/invirtio/console.go: the relay of a guest's console and the filter of its output.
pub mod Filter
pub mod Server
pub mod Client
mod Tests
