-- ===== src/Sourcing.antt =====
-- Choosing a supplier: internal/services/sourcing.go, with the policies and quotations of
-- internal/models/sourcing_models.go.
pub mod Selection
pub mod Laws
mod Tests
