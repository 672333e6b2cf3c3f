-- ===== src/AdminUsers.antt =====
-- The administration of users: admin/users/service.py over the rows of Auth/Store and Rbac/Scopes.
pub mod Store
pub mod Projects
pub mod Service
pub mod Checks
pub mod Ownership
pub mod Sessions
mod Tests
