-- ===== src/Bets.antt =====
-- backend/apps/bets/services.py
pub mod Limits
pub mod Place
pub mod Commission
pub mod Settle
pub mod Parlay
pub mod Reads
pub mod Slips
pub mod Placed
pub mod ParlaySettle
pub mod Verdict
pub mod Money
pub mod Once
pub mod MatchSettle
pub mod Covered
pub mod Complete
