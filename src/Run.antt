-- ===== src/Run.antt =====
-- tools/cmd/invirtio/run.go: the supervisor of a device's guest.
pub mod Launch
pub mod Cgroup
pub mod Start
pub mod Logger
pub mod Supervisor
mod Tests
