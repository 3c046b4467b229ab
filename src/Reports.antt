-- ===== src/Reports.antt =====
-- The figures that are computed on read: aged receivables and payables, the position of the business
-- (internal/services/receivables.go, internal/handlers/receivables.go and the reports of
-- internal/handlers/payables.go), and the costing of deals (internal/services/jobcosting.go).
pub mod Ageing
pub mod Receivables
pub mod Position
pub mod Costing
pub mod Sums
pub mod Agreement
pub mod Average
mod Tests
