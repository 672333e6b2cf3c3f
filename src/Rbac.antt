-- ===== src/Rbac.antt =====
-- Role-based access (apps/api/src/risk_platform/rbac, admin/roles/policy.py, admin/users/policy.py).
pub mod Scopes
pub mod Roles
pub mod Separation
mod Tests
