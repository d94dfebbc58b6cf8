-- ===== src/Tests/Wagers.antt =====
-- Credits and wagers: one that a stake unlocks, one that it does not.
use quickpaybet.Prelude.{◌≡◌, true, List, [], ◌∷◌, arith}
use quickpaybet.Prelude.Int.{pos, ◌+ℤ◌, ◌≤ℤ◌}
use quickpaybet.Models.Wallets.{Wallet}
use quickpaybet.Models.Cashback.{CashbackCredit, CreditStatus}
use quickpaybet.Wallet.Reconciled.{total}
use quickpaybet.Cashback.Wager.{wager_credits}
use quickpaybet.Cashback.Locked.{locked_total, locked-wager, balance-wager_nonneg}
use quickpaybet.Cashback.Clawback.{total-wager}
use quickpaybet.Tests.Data.{units}

abbrev holder : Wallet
holder = record {
  user = 1;
  balance = units 12;
  reserved_balance = pos 0;
  locked_cashback_balance = units 30;
}

abbrev near : CashbackCredit
near = record {
  user = 1;
  loss_amount = units 400;
  rate_applied = pos 500;
  cashback_amount = units 20;
  multiplier_applied = pos 300;
  wagering_required = units 60;
  wagering_progress = units 50;
  deduct_original_on_unlock = true;
  status = CreditStatus.locked;
}

abbrev far : CashbackCredit
far = record near { cashback_amount = units 10; wagering_progress = pos 0 }

abbrev credits : List CashbackCredit
credits = near ∷ far ∷ []

locked-wager_example :
    (wager_credits (units 15) holder credits).wallet.locked_cashback_balance
      +ℤ locked_total 1 credits
    ≡ units 30 +ℤ locked_total 1 (wager_credits (units 15) holder credits).credits
locked-wager_example = locked-wager (units 15) holder credits

total-wager_example :
    units 12 +ℤ total 1 (wager_credits (units 15) holder credits).entries
    ≡ (wager_credits (units 15) holder credits).wallet.balance
total-wager_example =
    total-wager (units 15) holder credits (omega arith) (omega arith, (omega arith, tt))

balance-wager_nonneg_example : pos 0 ≤ℤ (wager_credits (units 15) holder credits).wallet.balance
balance-wager_nonneg_example = balance-wager_nonneg (units 15) holder credits (omega arith)
