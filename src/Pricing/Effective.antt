-- ===== src/Pricing/Effective.antt =====
-- `get_effective_odds_for_user`: what one signed-in user is charged. (The source also passes an absent
-- or anonymous user through, which no betting service does.)
use quickpaybet.Prelude.{◌&&◌, Option, none, some, ◌==◌, find, get_or, if◌then◌else◌}
use quickpaybet.Prelude.Int.{pos}
use quickpaybet.Models.Money.{Odds}
use quickpaybet.Models.Accounts.{User}
use quickpaybet.Models.Sports.{
  Selection, home, draw, away, Match, ResolvedPricingMode, UserMatchOddsOverride,
}
use quickpaybet.Models.Database.{Database}
use quickpaybet.Pricing.Adjust.{
  Prices, is_zero, apply_odds_adjustment, resolve_effective_lay_spread,
}
use quickpaybet.Pricing.Modes.{compute_back_and_lay, resolve_user_pricing_mode}

abbrev pub odds_override : Database → User → Match → Option UserMatchOddsOverride
odds_override s user m = find (λ o. o.user == user.id && o.match_id == m.id) s.odds_overrides

abbrev row_adjustment : Option UserMatchOddsOverride → Option Odds
row_adjustment none = none
row_adjustment (some o) = o.adjustment

abbrev row_spread : Option UserMatchOddsOverride → Option Odds
row_spread none = none
row_spread (some o) = o.lay_spread_override

-- The row's adjustment, else the user's own, else zero.
unfoldable pub resolve_user_extra_adjustment : Database → User → Match → Odds
resolve_user_extra_adjustment s user m =
    get_or (row_adjustment (odds_override s user m)) (get_or user.odds_adjustment_override (pos 0))

abbrev or_else : Option Odds → Option Odds → Option Odds
or_else (some x) y = some x
or_else none y = y

-- The row's spread, else the user's own, else none.
unfoldable pub resolve_user_extra_lay_spread : Database → User → Match → Option Odds
resolve_user_extra_lay_spread s user m =
    or_else (row_spread (odds_override s user m)) user.lay_spread_override

abbrev pub match_prices : Match → Prices
match_prices m = record {
  price_home = m.odds_home;
  price_draw = m.odds_draw;
  price_away = m.odds_away;
}

-- The first component of `compute_back_and_lay`, which passes `None` through.
abbrev pub back_of : Option Odds → ResolvedPricingMode → Odds → Selection → Option Odds
back_of none mode spread selection = none
back_of (some raw) mode spread selection = some (compute_back_and_lay raw mode spread selection).0

unfoldable pub get_effective_odds_for_user : Database → Match → User → Prices
unfolding resolve_user_extra_adjustment resolve_user_extra_lay_spread resolve_effective_lay_spread
get_effective_odds_for_user s m user =
    let extra = resolve_user_extra_adjustment s user m in
    let base = match_prices m in
    let shifted = if is_zero extra then base else apply_odds_adjustment extra base in
    let spread =
      get_or (resolve_user_extra_lay_spread s user m)
        (resolve_effective_lay_spread m.lay_spread_override s.house_config.default_lay_spread) in
    elim (resolve_user_pricing_mode s user m) [
      | none ↦ shifted
      | some mode ↦ record {
        price_home = back_of shifted.price_home mode spread home;
        price_draw = back_of shifted.price_draw mode spread draw;
        price_away = back_of shifted.price_away mode spread away;
      }
    ]

abbrev pub price_of : Prices → Selection → Option Odds
price_of p home = p.price_home
price_of p draw = p.price_draw
price_of p away = p.price_away
