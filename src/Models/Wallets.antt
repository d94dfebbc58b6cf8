-- ===== src/Models/Wallets.antt =====
-- backend/apps/wallet/models.py. Descriptions, reference ids and timestamps are display data and are
-- left out; a wallet is named by its user's id, since `Wallet.user` is a one-to-one field.
use quickpaybet.Prelude.{ℕ, Bool}
use quickpaybet.Prelude.Int.{ℤ, ◌-ℤ◌}
use quickpaybet.Models.Money.{Money}

-- `usd_pkr_rate` counts 0.0001.
pub record FxRateConfig : Type 0 where
  pub usd_pkr_rate : ℤ
  pub is_manual_override : Bool

pub record Wallet : Type 0 where
  pub user : ℕ
  pub balance : Money
  pub reserved_balance : Money
  pub locked_cashback_balance : Money

unfoldable pub available_balance : Wallet → Money
available_balance w = w.balance -ℤ w.reserved_balance

unfoldable pub withdrawable_balance : Wallet → Money
unfolding available_balance
withdrawable_balance w = available_balance w -ℤ w.locked_cashback_balance

pub data TxnType : Type 0 where
  deposit withdrawal bet_placed bet_won bet_refund commission adjustment : TxnType
  exchange_won exchange_lost cashback_credit cashback_clawback : TxnType
  casino_session_open casino_win casino_bet : TxnType

pub data TxnStatus : Type 0 where
  pending completed failed cancelled : TxnStatus

pub record WalletTransaction : Type 0 where
  pub wallet : ℕ
  pub txn_type : TxnType
  pub amount : Money
  pub status : TxnStatus
  pub balance_after : Money
