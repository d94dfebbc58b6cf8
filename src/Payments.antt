-- ===== src/Payments.antt =====
-- backend/apps/payments/services.py and backend/apps/rewards/services.py
pub mod Providers
pub mod Rewards
pub mod Requests
pub mod Payouts
pub mod Deposits
pub mod Debited
pub mod Refund
pub mod Granted
pub mod Kept
pub mod Confirmed
pub mod Holding
pub mod Succeeds
pub mod Interleaved
