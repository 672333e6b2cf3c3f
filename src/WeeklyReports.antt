-- ===== src/WeeklyReports.antt =====
-- The weekly report of a project: weekly_reports/service.py over the mails, candidates, risks and to-do
-- items from which it is built, and the durable tasks that rebuild it.
pub mod Model
pub mod Invalidate
pub mod Rebuild
pub mod Report
pub mod Handle
pub mod Reconcile
pub mod Selected
pub mod Counted
pub mod Current
pub mod Entries
pub mod Served
pub mod Dispatch
pub mod Marked
mod Tests
