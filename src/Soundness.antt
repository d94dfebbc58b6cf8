-- ===== src/Soundness.antt =====
-- The invariant that joins the wallets, the ledger and the cashback credits, and that the services keep.
pub mod Invariant
pub mod Statements
pub mod Wagers
pub mod Services
pub mod Settlement
pub mod Parlays
pub mod Orders
pub mod Fills
pub mod Exchange
pub mod Payments
pub mod Casino
