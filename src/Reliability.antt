-- ===== src/Reliability.antt =====
-- Durable tasks (apps/api/src/risk_platform/reliability): PostgreSQL is the source of truth for
-- background work; workers claim, renew and finish tasks under fenced leases.
pub mod Task
pub mod Core
pub mod Sound
pub mod Trace
pub mod Settled
pub mod Distinct
pub mod Invariant
pub mod Enqueued
pub mod Consistent
pub mod Job
pub mod Advances
pub mod Refinement
pub mod Retries
pub mod Claims
pub mod Idempotent
pub mod Dispatcher
pub mod Execution
pub mod Batch
pub mod Published
mod Tests
