-- ===== src/Plan.antt =====
-- tools/cmd/invirtio/plan.go: the stages of a command, shown and run.
pub mod Actions
pub mod Stages
pub mod Quote
mod Tests
