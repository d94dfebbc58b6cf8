-- ===== src/Models/Exchange.antt =====
-- backend/apps/exchange/models.py
use quickpaybet.Prelude.{ℕ, Bool, true, false, Option}
use quickpaybet.Prelude.Int.{◌-ℤ◌}
use quickpaybet.Models.Money.{Money, Odds, Percent}
use quickpaybet.Models.Sports.{Selection}

pub record ExchangeConfig : Type 0 where
  pub commission_rate : Percent

pub data Side : Type 0 where
  back lay : Side

abbrev pub is_back : Side → Bool
is_back back = true
is_back lay = false

abbrev pub same_side : Side → Side → Bool
same_side back s = is_back s
same_side lay back = false
same_side lay lay = true

abbrev pub opposite : Side → Side
opposite back = lay
opposite lay = back

pub data OrderStatus : Type 0 where
  opened cancelled settled void : OrderStatus

abbrev pub is_open : OrderStatus → Bool
is_open opened = true
is_open cancelled = false
is_open settled = false
is_open void = false

pub record ExchangeOrder : Type 0 where
  pub id : ℕ
  pub user : ℕ
  pub match_id : ℕ
  pub selection : Selection
  pub side : Side
  pub odds : Odds
  pub stake : Money
  pub matched_stake : Money
  pub status : OrderStatus
  pub created_at : ℕ

unfoldable pub unmatched_stake : ExchangeOrder → Money
unmatched_stake o = o.stake -ℤ o.matched_stake

pub data FillStatus : Type 0 where
  pending back_won lay_won void : FillStatus

abbrev pub is_pending_fill : FillStatus → Bool
is_pending_fill pending = true
is_pending_fill back_won = false
is_pending_fill lay_won = false
is_pending_fill void = false

pub record ExchangeFill : Type 0 where
  pub id : ℕ
  pub match_id : ℕ
  pub selection : Selection
  pub back_order : ℕ
  pub lay_order : ℕ
  pub odds : Odds
  pub stake : Money
  pub status : FillStatus
  pub commission_amount : Option Money
