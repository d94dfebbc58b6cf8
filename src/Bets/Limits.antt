-- ===== src/Bets/Limits.antt =====
-- The guards that single bets and parlays share, and `_get_bet_odds`.
use quickpaybet.Prelude.{Bool, false, not, Option, none, some, if◌then◌else◌}
use quickpaybet.Prelude.Int.{pos, ◌-ℤ◌, ◌*ℤ◌, abs, leb_ℤ, ltb_ℤ}
use quickpaybet.Models.Money.{Money, Odds}
use quickpaybet.Models.Accounts.{User}
use quickpaybet.Models.Sports.{Match, Selection}
use quickpaybet.Pricing.Effective.{get_effective_odds_for_user, price_of}
use quickpaybet.Action.{
  Action, Done, or_raise, raise_if, raise, stake_not_positive, betting_disabled, below_minimum,
  above_maximum, no_odds, ◌>>◌,
}

abbrev pub is_below : Option Money → Money → Bool
is_below none stake = false
is_below (some least) stake = ltb_ℤ stake least

abbrev pub is_above : Option Money → Money → Bool
is_above none stake = false
is_above (some most) stake = ltb_ℤ most stake

-- The first four tests of `place_bet` and `place_parlay_bet`.
unfoldable pub check_stake : User → Money → Action Done
check_stake user stake = do
  raise_if (leb_ℤ stake (pos 0)) stake_not_positive
  raise_if (not user.is_betting_enabled) betting_disabled
  raise_if (is_below user.min_bet_amount stake) below_minimum
  raise_if (is_above user.max_bet_amount stake) above_maximum

-- `odds_map.get(selection)`; a text that names no selection finds nothing.
abbrev pub choose : Option Odds → Action Odds
choose o = or_raise o no_odds

unfoldable pub get_bet_odds : Match → Option Selection → User → Action Odds
get_bet_odds m none user s = raise no_odds s
get_bet_odds m (some selection) user s =
    choose (price_of (get_effective_odds_for_user s m user) selection) s

-- `abs(odds - odds_shown) / odds_shown > 0.02`, for odds shown above zero.
unfoldable pub odds_moved : Odds → Option Odds → Bool
unfolding abs
odds_moved odds none = false
odds_moved odds (some shown) =
    if ltb_ℤ (pos 0) shown then ltb_ℤ (shown *ℤ pos 2) (abs (odds -ℤ shown) *ℤ pos 100) else false
