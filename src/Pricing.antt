-- ===== src/Pricing.antt =====
-- backend/apps/sports/pricing.py
pub mod Adjust
pub mod Modes
pub mod Effective
pub mod Floors
