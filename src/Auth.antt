-- ===== src/Auth.antt =====
-- Authentication (apps/api/src/risk_platform/auth): password and WeChat login with lockout, sessions,
-- password changes.
pub mod Store
pub mod Access
pub mod Login
pub mod Session
pub mod Password
pub mod Bounds
pub mod Lockout
pub mod Revocation
pub mod Coverage
pub mod Opened
pub mod Samples
mod Tests
