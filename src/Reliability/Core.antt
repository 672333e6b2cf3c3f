-- ===== src/Reliability/Core.antt =====
-- reliability/core.py over a store of task and outbox rows. An operation returns its result and the
-- store; the clock, new UUIDs and what concurrent transactions commit are arguments.
pub mod Store
pub mod Enqueue
pub mod Lease
pub mod Reconcile
