-- ===== src/Models/Accounts.antt =====
-- backend/apps/accounts/models.py: the fields of `User` that the services read.
use quickpaybet.Prelude.{ℕ, Bool, true, false, Option}
use quickpaybet.Models.Money.{Money, Percent, Odds}

pub data Currency : Type 0 where
  usd pkr : Currency

pub data Role : Type 0 where
  user agent master admin : Role

abbrev pub is_master : Role → Bool
is_master master = true
is_master user = false
is_master agent = false
is_master admin = false

abbrev pub is_admin : Role → Bool
is_admin admin = true
is_admin user = false
is_admin agent = false
is_admin master = false

pub record User : Type 0 where
  pub id : ℕ
  pub role : Role
  pub is_staff : Bool
  pub is_superuser : Bool
  pub currency : Currency
  pub parent : Option ℕ
  pub commission_rate : Percent
  pub min_bet_amount : Option Money
  pub max_bet_amount : Option Money
  pub is_betting_enabled : Bool
  pub cashback_enabled_override : Option Bool
  pub cashback_rate_override : Option Percent
  pub cashback_wagering_multiplier_override : Option Percent
  pub is_house_account : Bool
  pub odds_adjustment_override : Option Odds
  pub lay_spread_override : Option Odds
