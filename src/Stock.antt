-- ===== src/Stock.antt =====
-- The stock ledger (internal/services/stock.go, internal/models/stock_models.go, and the handlers
-- of internal/handlers/stock.go).
pub mod Ledger
pub mod Handlers
pub mod Balance
pub mod Kinds
pub mod Backfill
mod Tests
