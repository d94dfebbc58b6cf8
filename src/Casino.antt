-- ===== src/Casino.antt =====
-- backend/apps/casino/services.py: the wallet side of casino games. The providers are HTTP clients, so
-- what they answer is a parameter.
pub mod Launch
pub mod Rounds
pub mod Seamless
pub mod Hud
pub mod Applied
pub mod Events
pub mod Restored
pub mod Once
pub mod Delivery
