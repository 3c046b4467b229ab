-- ===== src/Authz.antt =====
-- What a role may do: internal/authz/authz.go, and the admin gate of internal/middleware/auth.go.
pub mod Grants
pub mod Cache
pub mod Routes
pub mod Laws
mod Tests
