-- ===== src/Approvals/Proofs.antt =====
-- What is proved of the approval engine.
mod Frame
mod Votes
pub mod RuleLaws
mod Statements
pub mod Invariant
pub mod GateSteps
pub mod Eligible
pub mod DeskSteps
mod Spent
pub mod Authorisation
pub mod Handlers
pub mod Consumed
pub mod Conserved
pub mod GateLaws
pub mod DeskLaws
pub mod Unblocks
