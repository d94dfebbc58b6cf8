-- ===== src/Cashback/Credit.antt =====
-- `credit_cashback_for_loss`. The loss is `n / d` units of the wallet, since a caller passes products
-- that are not yet rounded.
use quickpaybet.Prelude.{ℕ, ◌*◌, ◌||◌, not, Option, none, some, ◌∷◌, if◌then◌else◌}
use quickpaybet.Prelude.Int.{ℤ, pos, ◌+ℤ◌, ◌*ℤ◌, leb_ℤ, ltb_ℤ}
use quickpaybet.Prelude.Decimal.{quantize}
use quickpaybet.Models.Money.{Money, Percent, Column, store}
use quickpaybet.Models.Accounts.{User}
use quickpaybet.Models.Wallets.{Wallet, TxnType}
use quickpaybet.Models.Cashback.{CashbackCredit, CreditStatus}
use quickpaybet.Action.{Action, Done, atomic, gets, modify, pure, ◌>>=◌, ◌>>◌}
use quickpaybet.Wallet.Ledger.{lock_wallet, save_wallet, record_transaction}
use quickpaybet.Cashback.Settings.{Settings, get_effective_settings}

-- `(loss_amount * rate / 100).quantize(Decimal('0.00000001'))`
unfoldable pub cashback_for : ℤ → ℕ → Percent → Money
cashback_for n d rate = quantize (n *ℤ rate) (d * 10000)

-- `(cashback_amount * multiplier).quantize(Decimal('0.00000001'))`
unfoldable pub wagering_for : Money → Percent → Money
wagering_for amount multiplier = quantize (amount *ℤ multiplier) 100

abbrev pub credit_status : Money → CreditStatus
credit_status required =
    if ltb_ℤ (pos 0) required then CreditStatus.locked else CreditStatus.unlocked

-- The credit that a loss earns, and none where the program is off or the amount rounds to nothing.
unfoldable pub new_credit : ⦃c : Column⦄ → Settings → User → ℤ → ℕ → Option CashbackCredit
new_credit cfg user n d =
    let amount = cashback_for n d cfg.rate in
    let required = wagering_for amount cfg.multiplier in
    if not cfg.enabled || leb_ℤ cfg.rate (pos 0) || leb_ℤ n (pos 0)
    then none
    else if leb_ℤ amount (pos 0)
    then none
    else some (record {
      user = user.id;
      loss_amount = store n d;
      rate_applied = cfg.rate;
      cashback_amount = amount;
      multiplier_applied = cfg.multiplier;
      wagering_required = required;
      wagering_progress = pos 0;
      deduct_original_on_unlock = cfg.deduct_original_on_unlock;
      status = credit_status required;
    })

abbrev pub locked_part : CashbackCredit → Money
locked_part c = elim c.status [
  | CreditStatus.locked ↦ c.cashback_amount
  | CreditStatus.unlocked ↦ pos 0
]

-- The wallet after the credit.
abbrev pub credited : CashbackCredit → Wallet → Wallet
credited c w = record w {
  balance = w.balance +ℤ c.cashback_amount;
  locked_cashback_balance = w.locked_cashback_balance +ℤ locked_part c;
}

unfoldable pub apply_credit : CashbackCredit → Action Done
unfolding lock_wallet save_wallet record_transaction
apply_credit c = atomic do
  wallet ← lock_wallet c.user
  save_wallet (credited c wallet)
  modify (λ s. record s { credits = c ∷ s.credits })
  record_transaction (credited c wallet) TxnType.cashback_credit c.cashback_amount

abbrev pub apply_if : Option CashbackCredit → Action Done
apply_if none = pure tt
apply_if (some c) = apply_credit c

unfoldable pub credit_cashback_for_loss : ⦃c : Column⦄ → User → ℤ → ℕ → Action Done
unfolding apply_credit new_credit
credit_cashback_for_loss user n d = do
  config ← gets (λ s. s.cashback_config)
  apply_if (new_credit (get_effective_settings config user) user n d)
