-- ===== src/Wallet.antt =====
-- backend/apps/wallet/services.py, and the two statements that every money movement of the program
-- consists of: a wallet's `save` and a `WalletTransaction.objects.create`.
pub mod Ledger
pub mod Reconciled
pub mod Rates
pub mod Funds
pub mod Unread
pub mod RoundTrip
