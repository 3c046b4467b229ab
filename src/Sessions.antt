-- ===== src/Sessions.antt =====
-- Sign-in sessions: internal/services/refresh.go and internal/services/password_reset.go.
pub mod Refresh
pub mod Reset
mod Shut
pub mod Chains
pub mod ResetLaws
pub mod Links
mod Tests
