-- ===== src/Approvals.antt =====
-- The approval engine (internal/handlers/approvals.go, internal/models/approval_models.go): rules
-- that gate actions by amount, requests, votes, and the consumption of an approval.
pub mod Types
pub mod Queries
pub mod Gate
pub mod Desk
pub mod Rules
pub mod Sound
pub mod Proofs
mod Tests
