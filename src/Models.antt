-- ===== src/Models.antt =====
-- The rows that the services share, one child for each app's models.py (backend/apps/<app>/models.py),
-- and the database as a record of tables.
pub mod Money
pub mod Accounts
pub mod Sports
pub mod Wallets
pub mod Cashback
pub mod Bets
pub mod Exchange
pub mod Payments
pub mod Casino
pub mod Database
