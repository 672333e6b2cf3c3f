-- ===== src/Agent.antt =====
-- The confirmations of the agent: agent/confirmation.py over the operations of Risks and Todos.
pub mod Content
pub mod Token
pub mod Confirm
pub mod Once
pub mod Authorised
mod Tests
