-- ===== src/Pricing/Adjust.antt =====
-- The flat adjustments of backend/apps/sports/pricing.py. Odds count 0.01, so quantizing a sum to 0.01
-- divides by one unit.
use quickpaybet.Prelude.{Bool, Option, none, some, get_or, ◌==◌, if◌then◌else◌}
use quickpaybet.Prelude.Int.{ℤ, pos, negsuc, ◌+ℤ◌, max_ℤ}
use quickpaybet.Prelude.Decimal.{quantize_half_up, by_sign, half_up}
use quickpaybet.Models.Money.{Odds}
use mathlib.Core.Bool.{false}

abbrev pub odds_floor : Odds
odds_floor = pos 101

abbrev pub lay_spread_floor : Odds
lay_spread_floor = pos 1

-- `if not adjustment`
abbrev pub is_zero : ℤ → Bool
is_zero (pos n) = n == 0
is_zero (negsuc n) = false

unfoldable pub resolve_effective_adjustment : Option Odds → Odds → Odds
resolve_effective_adjustment match_adjustment default_adjustment =
    get_or match_adjustment default_adjustment

-- `_adjust` inside `apply_odds_adjustment`
unfoldable pub adjust : Odds → Option Odds → Option Odds
unfolding by_sign half_up
adjust adjustment none = none
adjust adjustment (some value) = some (quantize_half_up (max_ℤ (value +ℤ adjustment) odds_floor) 1)

-- The prices of home, draw and away.
pub record Prices : Type 0 where
  pub price_home : Option Odds
  pub price_draw : Option Odds
  pub price_away : Option Odds

unfoldable pub apply_odds_adjustment : Odds → Prices → Prices
unfolding adjust
apply_odds_adjustment adjustment p = if is_zero adjustment then p else record {
  price_home = adjust adjustment p.price_home;
  price_draw = adjust adjustment p.price_draw;
  price_away = adjust adjustment p.price_away;
}

unfoldable pub resolve_effective_lay_spread : Option Odds → Odds → Odds
resolve_effective_lay_spread match_spread default_spread = get_or match_spread default_spread

-- For odds that are present; the source passes `None` through.
unfoldable pub compute_lay_price : Odds → Odds → Odds
unfolding by_sign half_up max_ℤ
compute_lay_price back_odds spread = quantize_half_up (back_odds +ℤ max_ℤ spread lay_spread_floor) 1
