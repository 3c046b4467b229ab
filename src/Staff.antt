-- ===== src/Staff.antt =====
-- The administration of roles and staff accounts, in internal/handlers/handlers.go over the
-- permissions of internal/authz/authz.go.
pub mod Permissions
pub mod Roles
pub mod Accounts
pub mod PermissionLaws
pub mod RoleLaws
pub mod AccountLaws
mod Tests
