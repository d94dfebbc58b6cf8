-- ===== src/Pricing/Floors.antt =====
-- The floors of backend/apps/sports/pricing.py: `ODDS_FLOOR` under adjusted odds, and
-- `LAY_SPREAD_FLOOR` between a back price and its lay price.
use quickpaybet.Prelude.{◌≡◌, refl, ap, false, Option, none, some, arith}
use quickpaybet.Prelude.Int.{ℤ, pos, negsuc, neg, ◌+ℤ◌, ◌≤ℤ◌, ◌<ℤ◌, int_laws, max_ℤ}
use quickpaybet.Prelude.Decimal.{quantize_half_up, by_sign, half_up}
use quickpaybet.Models.Money.{Odds}
use quickpaybet.Models.Sports.{Selection, ResolvedPricingMode}
use quickpaybet.Pricing.Adjust.{Prices, is_zero, apply_odds_adjustment, adjust, odds_floor}
use quickpaybet.Pricing.Modes.{
  compute_back_and_lay, above_back, back_price, lay_price, back_custom_value_for,
  lay_custom_value_for,
}

-- Odds have two places, so quantizing them to two changes nothing.
pub quantize_half_up_one : (n : ℤ) → quantize_half_up n 1 ≡ n
unfolding by_sign half_up neg
quantize_half_up_one (pos n) = ground arith
quantize_half_up_one (negsuc n) = ground arith

pub lt-above_back : (back lay : Odds) → back <ℤ above_back back lay
lt-above_back back lay = grind (int_laws, quantize_half_up_one)

-- In every pricing mode, for whatever raw price, custom value, delta and spread, the lay price is strictly above the back price.
pub back-lt-lay :
    (raw spread : Odds) (mode : ResolvedPricingMode) (selection : Selection)
    → let (back, lay) = compute_back_and_lay raw mode spread selection in back <ℤ lay
unfolding compute_back_and_lay
back-lt-lay raw spread mode selection =
    let back = back_price mode.back_mode (back_custom_value_for mode selection) raw in
    lt-above_back back (
      lay_price mode.lay_mode (lay_custom_value_for mode selection) mode.lay_relative_delta spread
        back)

adjust-value : (a v : Odds) → adjust a (some v) ≡ some (max_ℤ (v +ℤ a) odds_floor)
unfolding adjust
adjust-value a v = ap some (quantize_half_up_one (max_ℤ (v +ℤ a) odds_floor))

-- A price that is there stays there, and is at least 1.01; a price that is not stays absent.
abbrev pub IsFloored : Option Odds → Option Odds → Type 0
IsFloored none q = q ≡ none
IsFloored (some v) q = (r : Odds) × (q ≡ some r) × (odds_floor ≤ℤ r)

adjust-IsFloored : (a : Odds) (p : Option Odds) → IsFloored p (adjust a p)
adjust-IsFloored a none = unfold adjust in refl
adjust-IsFloored a (some v) =
    (max_ℤ (v +ℤ a) odds_floor, adjust-value a v, unfold max_ℤ in ground arith)

-- An adjustment that is not zero, however negative, leaves each of the three prices at 1.01 or more, and a missing price missing.
pub apply_odds_adjustment-IsFloored :
    (a : Odds) (p : Prices)
    → is_zero a ≡ false
    → let q = apply_odds_adjustment a p in
      IsFloored p.price_home q.price_home
      × IsFloored p.price_draw q.price_draw
      × IsFloored p.price_away q.price_away
unfolding apply_odds_adjustment
apply_odds_adjustment-IsFloored a p h = rw h (
  adjust-IsFloored a p.price_home,
  adjust-IsFloored a p.price_draw,
  adjust-IsFloored a p.price_away,
)
