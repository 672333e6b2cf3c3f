-- ===== src/Scheduler.antt =====
-- The single-active tick loop of scheduler.py.
pub mod Cadence
pub mod Loop
pub mod Passes
pub mod Runs
mod Tests
