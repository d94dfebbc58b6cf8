-- ===== src/Models/Cashback.antt =====
-- backend/apps/cashback/models.py
use quickpaybet.Prelude.{ℕ, Bool, true, false}
use quickpaybet.Models.Money.{Money, Percent}

-- The multiplier counts 0.01, as a percentage does.
pub record CashbackConfig : Type 0 where
  pub is_enabled : Bool
  pub default_rate : Percent
  pub default_wagering_multiplier : Percent
  pub deduct_original_on_unlock : Bool

pub data CreditStatus : Type 0 where
  locked unlocked : CreditStatus

abbrev pub is_locked : CreditStatus → Bool
is_locked locked = true
is_locked unlocked = false

pub record CashbackCredit : Type 0 where
  pub user : ℕ
  pub loss_amount : Money
  pub rate_applied : Percent
  pub cashback_amount : Money
  pub multiplier_applied : Percent
  pub wagering_required : Money
  pub wagering_progress : Money
  pub deduct_original_on_unlock : Bool
  pub status : CreditStatus
