-- ===== src/Pricing/Modes.antt =====
-- The "Custom Odds" modes of backend/apps/sports/pricing.py.
use quickpaybet.Prelude.{ℕ, Bool, true, false, ◌&&◌, Option, none, some, ◌==◌, find, if◌then◌else◌}
use quickpaybet.Prelude.Int.{◌+ℤ◌, leb_ℤ}
use quickpaybet.Prelude.Decimal.{quantize_half_up, by_sign, half_up}
use quickpaybet.Models.Money.{Odds}
use quickpaybet.Models.Accounts.{User}
use quickpaybet.Models.Sports.{
  Selection, home, draw, away, Match, BackMode, LayMode, ResolvedPricingMode,
}
use quickpaybet.Models.Database.{Database}
use quickpaybet.Pricing.Adjust.{compute_lay_price, lay_spread_floor}

abbrev pub back_custom_value_for : ResolvedPricingMode → Selection → Option Odds
back_custom_value_for m home = m.back_custom_value_home
back_custom_value_for m draw = m.back_custom_value_draw
back_custom_value_for m away = m.back_custom_value_away

abbrev pub lay_custom_value_for : ResolvedPricingMode → Selection → Option Odds
lay_custom_value_for m home = m.lay_custom_value_home
lay_custom_value_for m draw = m.lay_custom_value_draw
lay_custom_value_for m away = m.lay_custom_value_away

-- The back price of a mode: the custom value, where the mode is custom and has one.
abbrev pub back_price : BackMode → Option Odds → Odds → Odds
back_price BackMode.custom (some value) raw = value
back_price BackMode.custom none raw = raw
back_price BackMode.api value raw = raw

-- The lay price before the floor.
abbrev pub lay_price : LayMode → Option Odds → Option Odds → Odds → Odds → Odds
lay_price LayMode.custom (some value) delta spread back = value
lay_price LayMode.custom none delta spread back = compute_lay_price back spread
lay_price LayMode.relative value (some delta) spread back = quantize_half_up (back +ℤ delta) 1
lay_price LayMode.relative value none spread back = compute_lay_price back spread
lay_price LayMode.api_lay value delta spread back = compute_lay_price back spread

-- `if lay <= back: lay = back + LAY_SPREAD_FLOOR`
abbrev pub above_back : Odds → Odds → Odds
above_back back lay = if leb_ℤ lay back then quantize_half_up (back +ℤ lay_spread_floor) 1 else lay

-- For odds that are present; the source passes `None` through as (None, None).
unfoldable pub compute_back_and_lay : Odds → ResolvedPricingMode → Odds → Selection → Odds × Odds
unfolding compute_lay_price by_sign half_up
compute_back_and_lay raw mode spread selection =
    let back = back_price mode.back_mode (back_custom_value_for mode selection) raw in
    let lay =
      lay_price mode.lay_mode (lay_custom_value_for mode selection) mode.lay_relative_delta spread
        back in
    (back, above_back back lay)

abbrev matches_opt : Option ℕ → ℕ → Bool
matches_opt none k = false
matches_opt (some j) k = j == k

abbrev is_none : Option ℕ → Bool
is_none none = true
is_none (some j) = false

-- The match's own row with no user, else the site-wide default.
unfoldable pub resolve_match_pricing_mode : Database → Match → ResolvedPricingMode
resolve_match_pricing_mode s m =
    elim (find (λ o. matches_opt o.match_id m.id && is_none o.user) s.pricing_overrides) [
      | none ↦ s.house_config.default_pricing
      | some o ↦ o.pricing
    ]

-- The row of this user and match, else the user's row for every match.
unfoldable pub resolve_user_pricing_mode : Database → User → Match → Option ResolvedPricingMode
resolve_user_pricing_mode s user m =
    elim (find (λ o. matches_opt o.user user.id && matches_opt o.match_id m.id)
      s.pricing_overrides) [
        | some o ↦ some o.pricing
        | none ↦
            elim (find (λ o. matches_opt o.user user.id && is_none o.match_id)
              s.pricing_overrides) [ some o ↦ some o.pricing | none ↦ none ]
      ]
