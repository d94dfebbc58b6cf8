-- ===== src/Cashback/Locked.antt =====
-- The wallet's locked balance, and the sum of its user's locked credits, through `record_wager`.
use quickpaybet.Prelude.{
  ℕ, ◌≡◌, ◌≢◌, refl, ap, ◌∙◌, false, ◌&&◌, List, [], ◌∷◌, arith, ◌==◌, if◌then◌else◌, Bool-cases,
  inl, inr,
}
use quickpaybet.Prelude.Int.{parts, pos, ◌+ℤ◌, ◌≤ℤ◌, int_laws, max_ℤ}
use quickpaybet.Models.Money.{Money}
use quickpaybet.Models.Wallets.{Wallet}
use quickpaybet.Models.Cashback.{CashbackCredit, is_locked}
use quickpaybet.Cashback.Wager.{wager_step, wager_credits}

-- What a credit locks of a user's money.
abbrev pub locked_amount : ℕ → CashbackCredit → Money
locked_amount u c = if is_locked c.status && c.user == u then c.cashback_amount else pos 0

-- The sum of a user's locked credits.
abbrev pub locked_total : ℕ → List CashbackCredit → Money
locked_total u [] = pos 0
locked_total u (c ∷ cs) = locked_amount u c +ℤ locked_total u cs

module _ (amount : Money) (c : CashbackCredit) (w : Wallet) where
  pub user-step : (wager_step amount c w).1.user ≡ w.user
  unfolding wager_step
  user-step = ground arith

  pub reserved-step : (wager_step amount c w).1.reserved_balance ≡ w.reserved_balance
  unfolding wager_step
  reserved-step = ground arith

  locked-step :
      (wager_step amount c w).1.locked_cashback_balance +ℤ locked_amount w.user c
      ≡ w.locked_cashback_balance +ℤ locked_amount w.user (wager_step amount c w).0
  unfolding wager_step
  locked-step = grind int_laws

  locked-step_other :
      (u : ℕ) → u ≢ w.user → locked_amount u (wager_step amount c w).0 ≡ locked_amount u c
  unfolding wager_step
  locked-step_other u h = ground arith

  pub balance-step_nonneg : pos 0 ≤ℤ w.balance → pos 0 ≤ℤ (wager_step amount c w).1.balance
  unfolding wager_step max_ℤ
  balance-step_nonneg h = ground arith

module _ (amount : Money) where
  pub user-wager :
      (w : Wallet) (cs : List CashbackCredit) → (wager_credits amount w cs).wallet.user ≡ w.user
  unfolding wager_credits
  user-wager w [] = refl
  user-wager w (c ∷ cs) = user-wager (wager_step amount c w).1 cs ∙ user-step amount c w

  -- For any credits and stake, a wager lowers the wallet's locked balance by exactly what it unlocks of its user's credits.
  pub locked-wager :
      (w : Wallet) (cs : List CashbackCredit)
      → (wager_credits amount w cs).wallet.locked_cashback_balance +ℤ locked_total w.user cs
        ≡ w.locked_cashback_balance +ℤ locked_total w.user (wager_credits amount w cs).credits
  unfolding wager_credits
  locked-wager w [] = omega int_laws
  locked-wager w (c ∷ cs) =
      let w' = (wager_step amount c w).1 in
      omega (int_laws, parts (locked-step amount c w), parts (rw user-step at (locked-wager w' cs)))

  -- Another user's credits stay as they are.
  pub locked-wager_other :
      (u : ℕ) (w : Wallet) (cs : List CashbackCredit)
      → u ≢ w.user
      → locked_total u (wager_credits amount w cs).credits ≡ locked_total u cs
  unfolding wager_credits
  locked-wager_other u w [] h = refl
  locked-wager_other u w (c ∷ cs) h = rw (locked-step_other amount c w u h) (
      ap (λ t. locked_amount u c +ℤ t)
        (locked-wager_other u (wager_step amount c w).1 cs (rw user-step h)))

  -- The clawbacks of a wager leave a balance that was not below zero not below zero.
  pub balance-wager_nonneg :
      (w : Wallet) (cs : List CashbackCredit)
      → pos 0 ≤ℤ w.balance
      → pos 0 ≤ℤ (wager_credits amount w cs).wallet.balance
  unfolding wager_credits
  balance-wager_nonneg w [] h = h
  balance-wager_nonneg w (c ∷ cs) h =
      balance-wager_nonneg (wager_step amount c w).1 cs (balance-step_nonneg amount c w h)

step_unchanged :
    (amount : Money) (c : CashbackCredit) (w : Wallet)
    → (wager_step amount c w).2 ≡ false
    → (wager_step amount c w).1 ≡ w
unfolding wager_step
step_unchanged amount c w h = ground arith

-- A wallet that the loop does not mark as changed is as it was.
pub wager_unchanged :
    (amount : Money) (w : Wallet) (cs : List CashbackCredit)
    → (wager_credits amount w cs).wallet_changed ≡ false
    → (wager_credits amount w cs).wallet ≡ w
unfolding wager_credits
wager_unchanged amount w [] h = refl
wager_unchanged amount w (c ∷ cs) h = elim (Bool-cases (wager_step amount c w).2) [
  | inl e ↦ cc (rw e at h)
  | inr e ↦
      wager_unchanged amount (wager_step amount c w).1 cs (rw e at h) ∙ step_unchanged amount c w e
]
