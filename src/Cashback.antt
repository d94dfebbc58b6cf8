-- ===== src/Cashback.antt =====
-- backend/apps/cashback/services.py
pub mod Settings
pub mod Wager
pub mod Credit
pub mod Locked
pub mod Clawback
