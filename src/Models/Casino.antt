-- ===== src/Models/Casino.antt =====
-- backend/apps/casino/models.py. A game carries its brand's `is_active`, the only field of the brand
-- that the services read.
use quickpaybet.Prelude.{ℕ, Bool, true, false, Option}
use quickpaybet.Prelude.Int.{ℤ}
use quickpaybet.Models.Money.{Money}
use quickpaybet.Models.Accounts.{Currency}
use quickpaybet.Models.Payments.{Text}

-- `max_launch_balance` counts 0.01 and `usd_to_provider_currency_rate` 0.0001, at least one of them.
pub record CasinoConfig : Type 0 where
  pub is_enabled : Bool
  pub max_launch_balance : ℤ
  pub provider_currency_code : Text
  pub usd_to_provider_currency_rate : ℕ

-- A region of the screen is passed on as it is.
pub record CasinoGame : Type 0 where
  pub id : ℕ
  pub game_uid : Text
  pub is_active : Bool
  pub brand_is_active : Bool
  pub live_blur_region : Option Text
  pub ai_tracking_enabled : Bool
  pub detected_blur_region : Option Text
  pub detected_blur_region_updated_at : Option ℕ

pub data SessionStatus : Type 0 where
  opened closed : SessionStatus

abbrev pub is_open_session : SessionStatus → Bool
is_open_session opened = true
is_open_session closed = false

-- `opened_balance_provider_currency` counts 0.01, the rates 0.0001.
pub record CasinoSession : Type 0 where
  pub id : ℕ
  pub user : ℕ
  pub game : ℕ
  pub opened_balance_usd : Money
  pub opened_balance_provider_currency : ℤ
  pub provider_currency_code : Text
  pub fx_rate_applied : ℕ
  pub wallet_amount : Money
  pub wallet_currency : Currency
  pub wallet_fx_rate_applied : ℤ
  pub status : SessionStatus

pub record CasinoRoundSettlement : Type 0 where
  pub session : ℕ
  pub provider_serial_number : Text
  pub bet_amount : Money
  pub win_amount : Money
  pub credit_amount_reported : Option Money

-- `CasinoWalletEvent.Action`
pub data EventAction : Type 0 where
  debit credit : EventAction

abbrev pub is_debit : EventAction → Bool
is_debit debit = true
is_debit credit = false

pub record CasinoWalletEvent : Type 0 where
  pub user : ℕ
  pub call_id : Text
  pub action : EventAction
  pub amount : Money
  pub wallet_amount : Money
  pub wallet_currency : Currency
  pub wallet_fx_rate_applied : ℤ
  pub round_id : Text
  pub game : Option ℕ
  pub is_bonus_fs : Bool
  pub is_rollback : Bool
  pub cash_skipped : Bool

-- `last_heartbeat` counts milliseconds.
pub record CasinoLiveViewer : Type 0 where
  pub user : ℕ
  pub game : ℕ
  pub last_heartbeat : ℕ
