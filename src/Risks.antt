-- ===== src/Risks.antt =====
-- The life of a risk with its to-do items: risks/service.py on the rows of Todos/Model.
pub mod Report
pub mod Lifecycle
pub mod Change
pub mod Closing
pub mod Reopening
mod Tests
pub mod Kept
