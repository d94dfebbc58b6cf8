-- ===== src/Soundness/Invariant.antt =====
-- The invariant over the tables of wallets, ledger rows and credits, and how one wallet's change keeps it.
use quickpaybet.Prelude.{
  ℕ, ◌≡◌, ◌≢◌, refl, Option, none, some, List, [], ◌∷◌, ◌++◌, ==_refl, ==_ne, Option-cases, inl,
  inr, sym, ◌∙◌,
}
use quickpaybet.Prelude.Int.{pos, ◌+ℤ◌, ◌≤ℤ◌, int_laws}
use quickpaybet.Prelude.Table.{
  get_row, put_row, get-put_self, get-put_ne, get-append, get-append_some,
}
use mathlib.Core.List.{append-nil}
use native.Mathlib.Decide.{ℕ_discrete as dec_eq}
use quickpaybet.Models.Money.{Money}
use quickpaybet.Models.Wallets.{Wallet, WalletTransaction}
use quickpaybet.Models.Cashback.{CashbackCredit}
use quickpaybet.Models.Database.{Database}
use quickpaybet.Wallet.Ledger.{wallet_of, new_wallet}
use quickpaybet.Wallet.Reconciled.{
  IsReconciled, entries-IsReconciled, new-IsReconciled, Owned, total, roundings, slack,
}
use quickpaybet.Cashback.Locked.{locked_total}
use quickpaybet.Cashback.Clawback.{IsNonneg}

abbrev pub LockedAgrees : Option Wallet → Money → Type 0
LockedAgrees none sum = sum ≡ pos 0
LockedAgrees (some w) sum = w.locked_cashback_balance ≡ sum

pub record IsSound (ws : List Wallet) (ts : List WalletTransaction) (cs : List CashbackCredit)
    : Type 0 where
  -- Balances are the sums of their ledger rows, up to rounding.
  pub reconciled : IsReconciled ws ts
  -- Locked balances are the sums of the locked credits, exactly.
  pub locked : (u : ℕ) → LockedAgrees (get_row Wallet.user u ws) (locked_total u cs)
  pub nonneg : IsNonneg cs

abbrev pub Sound : Database → Type 0
Sound s = IsSound s.wallets s.transactions s.credits

-- A service holds the row of this wallet.
abbrev pub Held : Wallet → Database → Type 0
Held w s = Sound s × (wallet_of w.user s ≡ some w)

module _ {ws : List Wallet} {ts : List WalletTransaction} {cs : List CashbackCredit}
    (h : IsSound ws ts cs) where
  -- One wallet's new row with its ledger rows and its user's credits.
  pub change-IsSound :
      (w w' : Wallet) (es : List WalletTransaction) (cs' : List CashbackCredit)
      → get_row Wallet.user w'.user ws ≡ some w
      → Owned w'.user es
      → w'.balance ≤ℤ w.balance +ℤ total w'.user es +ℤ pos (roundings w'.user es)
      → w.balance +ℤ total w'.user es ≤ℤ w'.balance +ℤ pos (roundings w'.user es)
      → w'.locked_cashback_balance ≡ locked_total w'.user cs'
      → ((u : ℕ) → u ≢ w'.user → locked_total u cs' ≡ locked_total u cs)
      → IsNonneg cs'
      → IsSound (put_row Wallet.user w' ws) (ts ++ es) cs'
  change-IsSound w w' es cs' found owned hi lo own others nonneg = record {
    reconciled = entries-IsReconciled h.reconciled w w' es found owned hi lo;
    locked = go;
    nonneg = nonneg;
  }
    where
      go :
          (u : ℕ)
          → LockedAgrees (get_row Wallet.user u (put_row Wallet.user w' ws)) (locked_total u cs')
      go u = elim (dec_eq w'.user u) [
        | yes e ↦ rw (← e) (rw (get-put_self Wallet.user w' w ws found) own)
        | no e ↦
            rw (get-put_ne Wallet.user u w' ws e)
              (rw (others u (λ (q : u ≡ w'.user). e (sym q))) (h.locked u))
      ]

  -- A new row of the wallet that leaves its locked balance alone, with one ledger row.
  pub entry-IsSound :
      (w w' : Wallet) (t : WalletTransaction)
      → get_row Wallet.user w'.user ws ≡ some w
      → t.wallet ≡ w'.user
      → w'.balance ≤ℤ w.balance +ℤ t.amount +ℤ pos (slack t.txn_type)
      → w.balance +ℤ t.amount ≤ℤ w'.balance +ℤ pos (slack t.txn_type)
      → w'.locked_cashback_balance ≡ w.locked_cashback_balance
      → IsSound (put_row Wallet.user w' ws) (ts ++ t ∷ []) cs
  entry-IsSound w w' t found owner hi lo same =
      let own : w.locked_cashback_balance ≡ locked_total w'.user cs =
        rw found at (h.locked w'.user) in
      change-IsSound w w' (t ∷ []) cs found (owner, tt) (rw (owner, ==_refl) (omega int_laws))
        (rw (owner, ==_refl) (omega int_laws)) (same ∙ own) (λ u e. refl) h.nonneg

  -- A new row of the wallet with the same balance and locked balance: no money moves.
  pub reserve-IsSound :
      (w w' : Wallet)
      → get_row Wallet.user w'.user ws ≡ some w
      → w'.balance ≡ w.balance
      → w'.locked_cashback_balance ≡ w.locked_cashback_balance
      → IsSound (put_row Wallet.user w' ws) ts cs
  reserve-IsSound w w' found same locked_same =
      let own : w.locked_cashback_balance ≡ locked_total w'.user cs =
        rw found at (h.locked w'.user) in
      rw append-nil at (
        change-IsSound w w' [] cs found tt (rw same (omega int_laws)) (rw same (omega int_laws))
          (locked_same ∙ own) (λ u e. refl) h.nonneg)

  pub create-IsSound :
      (u : ℕ) → get_row Wallet.user u ws ≡ none → IsSound (ws ++ new_wallet u ∷ []) ts cs
  create-IsSound u missing = record {
    reconciled = new-IsReconciled h.reconciled u missing;
    locked = go;
    nonneg = h.nonneg;
  }
    where
      go :
          (v : ℕ)
          → LockedAgrees (get_row Wallet.user v (ws ++ new_wallet u ∷ [])) (locked_total v cs)
      go v = elim (Option-cases (get_row Wallet.user v ws)) [
        | inl none_v ↦ elim (dec_eq u v) [
          | yes e ↦
              rw (get-append Wallet.user v (new_wallet u) ws none_v)
                (rw (← e, ==_refl) (sym (rw missing at (h.locked u))))
          | no e ↦
              rw (get-append Wallet.user v (new_wallet u) ws none_v)
                (rw (==_ne e) (rw none_v at (h.locked v)))
        ]
        | inr (w, e) ↦
            rw (get-append_some Wallet.user v (new_wallet u) w ws e) (rw e at (h.locked v))
      ]
