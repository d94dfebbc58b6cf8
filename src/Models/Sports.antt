-- ===== src/Models/Sports.antt =====
-- backend/apps/sports/models.py: matches, the "Custom Odds" rows and the house configuration. A
-- selection is `Bet.Selection` of backend/apps/bets/models.py.
use quickpaybet.Prelude.{ℕ, Bool, true, false, Option}
use quickpaybet.Models.Money.{Money, Odds}

pub data Selection : Type 0 where
  home draw away : Selection

-- `==` on selections
abbrev pub same_selection : Selection → Selection → Bool
same_selection home home = true
same_selection draw draw = true
same_selection away away = true
same_selection home _ = false
same_selection draw _ = false
same_selection away _ = false

pub data MatchStatus : Type 0 where
  scheduled live finished cancelled : MatchStatus

-- `match.status in (SCHEDULED, LIVE)`
abbrev pub is_open_for_betting : MatchStatus → Bool
is_open_for_betting scheduled = true
is_open_for_betting live = true
is_open_for_betting finished = false
is_open_for_betting cancelled = false

pub record Match : Type 0 where
  pub id : ℕ
  pub status : MatchStatus
  pub home_score : Option ℕ
  pub away_score : Option ℕ
  pub odds_home : Option Odds
  pub odds_draw : Option Odds
  pub odds_away : Option Odds
  pub lay_spread_override : Option Odds
  pub house_max_liability_override : Option Money

pub data BackMode : Type 0 where
  api custom : BackMode

pub data LayMode : Type 0 where
  api_lay relative custom : LayMode

-- `ResolvedPricingMode` of backend/apps/sports/pricing.py: the pricing fields that a
-- `PricingOverride` row and the `HouseLiquidityConfig` defaults share.
pub record ResolvedPricingMode : Type 0 where
  pub back_mode : BackMode
  pub back_custom_value_home : Option Odds
  pub back_custom_value_draw : Option Odds
  pub back_custom_value_away : Option Odds
  pub lay_mode : LayMode
  pub lay_relative_delta : Option Odds
  pub lay_custom_value_home : Option Odds
  pub lay_custom_value_draw : Option Odds
  pub lay_custom_value_away : Option Odds

-- A row for one user and match; either value may be blank.
pub record UserMatchOddsOverride : Type 0 where
  pub user : ℕ
  pub match_id : ℕ
  pub adjustment : Option Odds
  pub lay_spread_override : Option Odds

-- A row for a match, a user, or both.
pub record PricingOverride : Type 0 where
  pub user : Option ℕ
  pub match_id : Option ℕ
  pub pricing : ResolvedPricingMode

pub record HouseLiquidityConfig : Type 0 where
  pub is_enabled : Bool
  pub default_lay_spread : Odds
  pub default_max_liability_per_selection : Money
  pub default_pricing : ResolvedPricingMode
