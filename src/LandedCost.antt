-- ===== src/LandedCost.antt =====
-- The apportionment of landed cost (internal/services/landedcost.go, the bases of
-- internal/models/landed_cost_models.go). `Spread` is the arithmetic on int64, `Receipt` the entry
-- by basis, `Reference` the same method on plain numbers, and the rest are proofs.
pub mod Spread
pub mod Receipt
mod Tests
pub mod Reference
pub mod Refine
mod Slots
pub mod Shares
pub mod Exact
