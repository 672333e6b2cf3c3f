-- ===== src/Todos.antt =====
-- The to-do items that follow from risks: todos/models.py, todos/policy.py and todos/service.py.
pub mod Model
pub mod Service
pub mod Schedule
pub mod Risks
pub mod Coherent
pub mod Week
pub mod Operations
pub mod Updated
pub mod Snapshot
pub mod Recorded
pub mod Default
mod Tests
