-- ===== src/Counter.antt =====
-- Walk-in selling (internal/handlers/counter.go, internal/models/counter_models.go): till sessions,
-- sales, and the stock that a sale takes.
pub mod Till
pub mod Sale
pub mod Takings
pub mod Laws
mod Tests
