-- ===== src/Wallet/Unread.antt =====
-- An invariant that does not read the wallets or the ledger is kept by every service that writes
-- nothing else.
use quickpaybet.Prelude.{ℕ, Option, none, some, List, [], ◌∷◌, ◌++◌}
use quickpaybet.Models.Money.{Money}
use quickpaybet.Models.Wallets.{Wallet, WalletTransaction, TxnType}
use quickpaybet.Models.Database.{Database}
use quickpaybet.Action.{pure}
use quickpaybet.Action.Triple.{Keeps, Ends, keeps_rules, Keeps-modify}
use quickpaybet.Wallet.Ledger.{
  wallet_of, get_or_create_wallet, lock_wallet, save_wallet, record_transaction, new_wallet,
}
use quickpaybet.Wallet.Funds.{deposit_funds, withdraw_funds}

-- `I` says the same of a state with other wallets and another ledger.
pub record Unread (I : Database → Type 0) : Type 0 where
  pub with_wallets : (s : Database) (ws : List Wallet) → I s → I (record s { wallets = ws })
  pub with_transactions :
      (s : Database) (ts : List WalletTransaction) → I s → I (record s { transactions = ts })

module _ {I : Database → Type 0} (h : Unread I) where
  pub save_wallet-Keeps : (w : Wallet) → Keeps I (save_wallet w)
  unfolding save_wallet
  save_wallet-Keeps w = Keeps-modify _ (λ s i. h.with_wallets s _ i)

  pub record_transaction-Keeps :
      (w : Wallet) (kind : TxnType) (amount : Money) → Keeps I (record_transaction w kind amount)
  unfolding record_transaction
  record_transaction-Keeps w kind amount = Keeps-modify _ (λ s i. h.with_transactions s _ i)

  pub lock_wallet-Keeps : (u : ℕ) → Keeps I (lock_wallet u)
  unfolding lock_wallet
  lock_wallet-Keeps u = search keeps_rules

  pub get_or_create_wallet-Keeps : (u : ℕ) → Keeps I (get_or_create_wallet u)
  unfolding get_or_create_wallet pure
  get_or_create_wallet-Keeps u = record { run = λ s i. go s (wallet_of u s) i }
    where
      go :
          (s : Database) (o : Option Wallet)
          → I s
          → Ends {A = Wallet} I
              (λ _. I)
              (elim o [
                | none ↦ pure (new_wallet u) (record s { wallets = s.wallets ++ new_wallet u ∷ [] })
                | some w ↦ pure w s
              ])
      go s none i = h.with_wallets s _ i
      go s (some w) i = i

  pub deposit_funds-Keeps : (u : ℕ) (a : Money) → Keeps I (deposit_funds u a)
  unfolding deposit_funds
  deposit_funds-Keeps u a =
      search (keeps_rules, get_or_create_wallet-Keeps, save_wallet-Keeps, record_transaction-Keeps)
        depth 8

  pub withdraw_funds-Keeps : (u : ℕ) (a : Money) → Keeps I (withdraw_funds u a)
  unfolding withdraw_funds
  withdraw_funds-Keeps u a =
      search (keeps_rules, get_or_create_wallet-Keeps, save_wallet-Keeps, record_transaction-Keeps)
        depth 10
