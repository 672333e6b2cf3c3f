-- ===== src/TimeRanges.antt =====
-- shared/time_ranges.py: relative business times as half-open ranges of instants.
pub mod Calendar
pub mod Resolve
pub mod Laws
mod Tests
