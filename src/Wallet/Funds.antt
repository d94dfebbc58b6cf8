-- ===== src/Wallet/Funds.antt =====
-- `deposit_funds` and `withdraw_funds` of backend/apps/wallet/services.py
use quickpaybet.Prelude.{ℕ}
use quickpaybet.Prelude.Int.{pos, ◌+ℤ◌, ◌-ℤ◌, neg, leb_ℤ, ltb_ℤ}
use quickpaybet.Models.Money.{Money}
use quickpaybet.Models.Wallets.{TxnType, withdrawable_balance, available_balance}
use quickpaybet.Action.{
  Action, Done, atomic, raise_if, amount_not_positive, insufficient_available_balance, ◌>>=◌, ◌>>◌,
}
use quickpaybet.Wallet.Ledger.{get_or_create_wallet, save_wallet, record_transaction}

unfoldable pub deposit_funds : ℕ → Money → Action Done
unfolding get_or_create_wallet save_wallet record_transaction
deposit_funds user amount = do
  raise_if (leb_ℤ amount (pos 0)) amount_not_positive
  atomic do
    wallet ← get_or_create_wallet user
    let wallet' = record wallet { balance = wallet.balance +ℤ amount }
    save_wallet wallet'
    record_transaction wallet' TxnType.deposit amount

unfoldable pub withdraw_funds : ℕ → Money → Action Done
unfolding get_or_create_wallet save_wallet record_transaction withdrawable_balance available_balance
withdraw_funds user amount = do
  raise_if (leb_ℤ amount (pos 0)) amount_not_positive
  atomic do
    wallet ← get_or_create_wallet user
    raise_if (ltb_ℤ (withdrawable_balance wallet) amount) insufficient_available_balance
    let wallet' = record wallet { balance = wallet.balance -ℤ amount }
    save_wallet wallet'
    record_transaction wallet' TxnType.withdrawal (neg amount)
