-- ===== src/Accounting.antt =====
-- src/accounting.rs: what a peer owes, what is reserved for exchanges in flight, and when a
-- refreshment is due. `Pricing` has the pure functions, `Account` the state of one peer's account
-- and its operations; the other children are proofs.
pub mod Pricing
pub mod Account
pub mod Reserve
pub mod Flight
pub mod Ownership
mod Tests
