-- ===== src/Harness.antt =====
-- tools/internal/harness: what the hardware tests and benchmarks share.
pub mod Masks
pub mod Irqs
pub mod Stat
pub mod Checks
mod Tests
pub mod Guest
pub mod Memory
pub mod Bus
pub mod Counters
pub mod Launch
