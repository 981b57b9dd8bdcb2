-- ===== src/Gateway/Lifecycle.antt =====
-- A call's way through the gateway: what every operation keeps.
pub mod Quiet
pub mod Once
pub mod Ran
pub mod Runs
pub mod Steps
pub mod Writes
pub mod Decisions
pub mod Sound
pub mod Held
pub mod HeldSteps
pub mod Progress
