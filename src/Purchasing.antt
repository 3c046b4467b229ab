-- ===== src/Purchasing.antt =====
-- Purchase orders and the receipt of goods: internal/handlers/purchasing.go over
-- internal/models/purchase_models.go and internal/models/landed_cost_models.go.
pub mod Orders
pub mod Receipts
pub mod OrderForms
pub mod Desk
pub mod Deliveries
pub mod Arrivals
pub mod Recost
pub mod Calls
pub mod Quantities
pub mod Filled
pub mod Postings
pub mod Edges
pub mod Alive
pub mod DeskMoves
pub mod ArrivalMoves
pub mod Lifecycle
pub mod Issue
pub mod Stocked
pub mod OrderSteps
pub mod ArrivalSteps
pub mod RecostSteps
pub mod Outstanding
mod Tests
