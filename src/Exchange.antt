-- ===== src/Exchange.antt =====
-- backend/apps/exchange/services.py
pub mod Matching
pub mod Orders
pub mod Fills
pub mod Settle
pub mod Trades
pub mod Eligible
pub mod Priority
pub mod ZeroSum
pub mod Reserve
pub mod FillWrites
pub mod Conserved
pub mod Walk
pub mod CashOut
pub mod Book
pub mod House
pub mod Hedge
pub mod Cap
pub mod Equal
