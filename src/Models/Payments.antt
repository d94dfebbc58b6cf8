-- ===== src/Models/Payments.antt =====
-- backend/apps/payments/models.py and backend/apps/rewards/models.py
use quickpaybet.Prelude.{ℕ, Bool, true, false, Option}
use quickpaybet.Prelude.Int.{ℤ}
use quickpaybet.Models.Money.{Money, Percent}
use quickpaybet.Models.Accounts.{Currency}

-- Text that the code passes on and compares, and never takes apart: a number for each text.
abbrev pub Text : Type 0
Text = ℕ

pub data PaymentType : Type 0 where
  deposit withdrawal : PaymentType

abbrev pub is_deposit : PaymentType → Bool
is_deposit deposit = true
is_deposit withdrawal = false

abbrev pub is_withdrawal : PaymentType → Bool
is_withdrawal deposit = false
is_withdrawal withdrawal = true

pub data PaymentStatus : Type 0 where
  pending completed failed : PaymentStatus

abbrev pub is_pending_payment : PaymentStatus → Bool
is_pending_payment pending = true
is_pending_payment completed = false
is_pending_payment failed = false

-- `fx_rate_applied` counts 0.0001.
pub record CryptoPayment : Type 0 where
  pub id : ℕ
  pub user : ℕ
  pub amount : Money
  pub currency : Text
  pub wallet_amount : Option Money
  pub wallet_currency : Currency
  pub fx_rate_applied : ℤ
  pub payment_type : PaymentType
  pub status : PaymentStatus
  pub provider : Text
  pub external_id : Text
  pub address : Option Text

pub record RewardPackage : Type 0 where
  pub id : ℕ
  pub deposit_threshold : Money
  pub commission_rate_bonus : Percent
  pub is_active : Bool

pub record UserRewardClaim : Type 0 where
  pub user : ℕ
  pub package_id : ℕ
  pub commission_rate_bonus_applied : Percent
  pub deposit_total_at_claim : Money
