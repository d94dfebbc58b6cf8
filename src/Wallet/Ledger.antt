-- ===== src/Wallet/Ledger.antt =====
-- Wallet rows and ledger rows: `Wallet.objects.select_for_update().get(user=…)`, `wallet.save(…)` and
-- `WalletTransaction.objects.create(…)`, as every service calls them.
use quickpaybet.Prelude.{ℕ, Option, none, some, [], ◌∷◌, ◌++◌}
use quickpaybet.Prelude.Int.{ℤ, pos, ◌+ℤ◌, ◌*ℤ◌}
use quickpaybet.Prelude.Table.{get_row, put_row}
use quickpaybet.Models.Money.{Money, Column, store}
use quickpaybet.Models.Wallets.{Wallet, TxnType, TxnStatus}
use quickpaybet.Models.Database.{Database}
use quickpaybet.Action.{Action, Done, gets, pure, or_raise, modify, does_not_exist, ◌>>=◌, ◌>>◌}

abbrev pub wallet_of : ℕ → Database → Option Wallet
wallet_of u s = get_row Wallet.user u s.wallets

-- `Wallet.objects.select_for_update().get(user=user)`
unfoldable pub lock_wallet : ℕ → Action Wallet
lock_wallet u = do or_raise (← gets (wallet_of u)) does_not_exist

abbrev pub new_wallet : ℕ → Wallet
new_wallet u = record {
  user = u;
  balance = pos 0;
  reserved_balance = pos 0;
  locked_cashback_balance = pos 0;
}

-- `Wallet.objects.select_for_update().get_or_create(user=user)`
unfoldable pub get_or_create_wallet : ℕ → Action Wallet
get_or_create_wallet u s = elim (wallet_of u s) [
  | none ↦ (pure (new_wallet u)) (record s { wallets = s.wallets ++ new_wallet u ∷ [] })
  | some w ↦ pure w s
]

-- `wallet.save(update_fields=…)` of a row that the caller holds locked
unfoldable pub save_wallet : Wallet → Action Done
save_wallet w = modify (λ s. record s { wallets = put_row Wallet.user w s.wallets })

-- `WalletTransaction.objects.create(…, status=COMPLETED, balance_after=wallet.balance)`
unfoldable pub record_transaction : Wallet → TxnType → Money → Action Done
record_transaction w kind amount = modify λ s. record s {
  transactions =
      s.transactions
      ++ record {
        wallet = w.user;
        txn_type = kind;
        amount = amount;
        status = TxnStatus.completed;
        balance_after = w.balance;
      }
        ∷ [];
}

-- `wallet.balance += x` with `x = n / d` units, as the column stores it
abbrev pub add_to_balance : ⦃c : Column⦄ → ℤ → ℕ → Wallet → Wallet
add_to_balance n d w = record w { balance = store (w.balance *ℤ pos d +ℤ n) d }

-- `wallet.balance += x; wallet.save(…); WalletTransaction.objects.create(amount=x, …)`
unfoldable pub post : ⦃c : Column⦄ → TxnType → ℤ → ℕ → Wallet → Action Done
unfolding save_wallet record_transaction
post kind n d w = do
  save_wallet (add_to_balance n d w)
  record_transaction (add_to_balance n d w) kind (store n d)
