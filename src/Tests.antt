-- ===== src/Tests.antt =====
-- Runs of the services on small inputs.
mod Accounts
mod HalfEven
mod Data
mod Books
mod Wagers
mod Market
mod Fills
mod Services
mod Parlays
mod Payments
mod Casino
mod CashOuts
