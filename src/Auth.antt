-- ===== src/Auth.antt =====
-- src/server/auth: permissions and credentials.
pub mod Rbac
pub mod Access
