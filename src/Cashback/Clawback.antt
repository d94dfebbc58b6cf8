-- ===== src/Cashback/Clawback.antt =====
-- The ledger rows that `record_wager` creates: whose they are, and what they sum to.
use quickpaybet.Prelude.{ℕ, ◌≡◌, refl, List, [], ◌∷◌, arith, All, All-append}
use quickpaybet.Prelude.Int.{parts, pos, ◌+ℤ◌, ◌-ℤ◌, ◌≤ℤ◌, int_laws, max_ℤ}
use quickpaybet.Models.Money.{Money}
use quickpaybet.Models.Wallets.{Wallet, WalletTransaction}
use quickpaybet.Models.Cashback.{CashbackCredit}
use quickpaybet.Wallet.Reconciled.{total, roundings, Owned, total-append, roundings-append}
use quickpaybet.Cashback.Wager.{clawback, wager_step, wager_credits}
use quickpaybet.Cashback.Locked.{user-step, balance-step_nonneg}

-- Credits are never negative.
abbrev pub IsNonneg : List CashbackCredit → Type 0
IsNonneg = All (λ c. pos 0 ≤ℤ c.cashback_amount)

total-clawback :
    (w w' : Wallet)
    → w'.balance ≤ℤ w.balance
    → w.balance +ℤ total w.user (clawback w w') ≡ w'.balance
unfolding clawback
total-clawback w w' h = grind int_laws

Owned-clawback : (w w' : Wallet) → Owned w.user (clawback w w')
unfolding clawback
Owned-clawback w w' = ground arith

roundings-clawback : (u : ℕ) (w w' : Wallet) → roundings u (clawback w w') ≡ 0
unfolding clawback
roundings-clawback u w w' = ground arith

balance-step-le :
    (amount : Money) (c : CashbackCredit) (w : Wallet)
    → pos 0 ≤ℤ w.balance
    → pos 0 ≤ℤ c.cashback_amount
    → (wager_step amount c w).1.balance ≤ℤ w.balance
unfolding wager_step max_ℤ ◌-ℤ◌
balance-step-le amount c w h k = ground arith

amount-step :
    (amount : Money) (c : CashbackCredit) (w : Wallet)
    → (wager_step amount c w).0.cashback_amount ≡ c.cashback_amount
unfolding wager_step
amount-step amount c w = ground arith

module _ (amount : Money) where
  pub Owned-wager :
      (w : Wallet) (cs : List CashbackCredit) → Owned w.user (wager_credits amount w cs).entries
  unfolding wager_credits
  Owned-wager w [] = tt
  Owned-wager w (c ∷ cs) =
      let w' = (wager_step amount c w).1 in
      All-append (λ (t : WalletTransaction). t.wallet ≡ w.user) (clawback w w')
        (wager_credits amount w' cs).entries (Owned-clawback w w')
        (rw user-step at (Owned-wager w' cs))

  pub roundings-wager :
      (u : ℕ) (w : Wallet) (cs : List CashbackCredit)
      → roundings u (wager_credits amount w cs).entries ≡ 0
  unfolding wager_credits
  roundings-wager u w [] = refl
  roundings-wager u w (c ∷ cs) =
      let w' = (wager_step amount c w).1 in
      rw (roundings-append, roundings-clawback) (omega (arith, roundings-wager u w' cs))

  -- For a balance and credits that are not negative, the change that a wager makes to the balance is the sum of the clawback rows that it creates.
  pub total-wager :
      (w : Wallet) (cs : List CashbackCredit)
      → pos 0 ≤ℤ w.balance
      → IsNonneg cs
      → w.balance +ℤ total w.user (wager_credits amount w cs).entries
        ≡ (wager_credits amount w cs).wallet.balance
  unfolding wager_credits
  total-wager w [] h k = omega int_laws
  total-wager w (c ∷ cs) h k =
      let w' = (wager_step amount c w).1 in
      rw total-append (
        omega (
          int_laws,
          parts (total-clawback w w' (balance-step-le amount c w h k.0)),
          parts (rw user-step at (total-wager w' cs (balance-step_nonneg amount c w h) k.1)),
        ))

  pub IsNonneg-wager :
      (w : Wallet) (cs : List CashbackCredit)
      → IsNonneg cs
      → IsNonneg (wager_credits amount w cs).credits
  unfolding wager_credits
  IsNonneg-wager w [] h = tt
  IsNonneg-wager w (c ∷ cs) h =
      (rw amount-step h.0, IsNonneg-wager (wager_step amount c w).1 cs h.1)
