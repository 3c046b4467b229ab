-- ===== src/Payables.antt =====
-- What the business owes its suppliers (internal/models/payables_models.go and the handlers of
-- internal/handlers/payables.go that write): expenses, settlements, and the gate before them.
pub mod Expenses
pub mod Handlers
pub mod Fairness
pub mod Overpayment
mod Tests
