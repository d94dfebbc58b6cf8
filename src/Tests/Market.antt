-- ===== src/Tests/Market.antt =====
-- The exchange and the prices on small inputs.
use quickpaybet.Prelude.{
  ◌≡◌, ◌⊎◌, refl, true, false, none, some, List, [], ◌∷◌, All, arith, length, select,
}
use quickpaybet.Prelude.Int.{pos, neg, ◌+ℤ◌, ◌*ℤ◌, ◌≤ℤ◌, ◌<ℤ◌}
use quickpaybet.Models.Sports.{home, LayMode, ResolvedPricingMode}
use quickpaybet.Models.Exchange.{
  back, lay, ExchangeOrder, ExchangeFill, FillStatus, OrderStatus, unmatched_stake,
}
use quickpaybet.Pricing.Adjust.{Prices, apply_odds_adjustment}
use quickpaybet.Pricing.Modes.{compute_back_and_lay}
use quickpaybet.Pricing.Floors.{back-lt-lay, apply_odds_adjustment-IsFloored, IsFloored}
use quickpaybet.Exchange.Matching.{match_loop, Trade, resting_for, is_counterparty, is_better}
use quickpaybet.Exchange.Eligible.{Eligible, counterparty-Eligible}
use quickpaybet.Exchange.Priority.{InPriority, resting_for-InPriority}
use quickpaybet.Exchange.Trades.{
  match_loop-conserves, match_loop-IsWithin, match_loop_exhausts, traded, matched_total, IsWithin,
}
use quickpaybet.Exchange.Fills.{side_change, profit_of, commission_of}
use quickpaybet.Exchange.ZeroSum.{side_change_zero_sum}
use quickpaybet.Tests.Data.{units, api_pricing}

abbrev pub taker : ExchangeOrder
taker = record {
  id = 3;
  user = 1;
  match_id = 7;
  selection = home;
  side = back;
  odds = pos 200;
  stake = units 100;
  matched_stake = pos 0;
  status = OrderStatus.opened;
  created_at = 3;
}

abbrev pub maker : ExchangeOrder
maker = record taker {
  id = 1;
  user = 2;
  side = lay;
  odds = pos 220;
  stake = units 30;
  created_at = 1;
}

abbrev filled_maker : ExchangeOrder
filled_maker = record maker { id = 2; matched_stake = units 30 }

abbrev book : List ExchangeOrder
book = maker ∷ filled_maker ∷ []

match_loop-conserves_example :
    ((match_loop taker book).taker.matched_stake ≡ pos 0 +ℤ traded (match_loop taker book).trades)
    × (matched_total (match_loop taker book).makers
        ≡ matched_total book +ℤ traded (match_loop taker book).trades)
match_loop-conserves_example = match_loop-conserves taker book

match_loop-IsWithin_example :
    IsWithin (match_loop taker book).taker
    × All IsWithin (match_loop taker book).makers
    × All (λ (t : Trade). pos 0 <ℤ t.stake) (match_loop taker book).trades
match_loop-IsWithin_example =
    match_loop-IsWithin taker book (omega arith) (omega arith, (omega arith, tt))

match_loop_exhausts_example :
    (unmatched_stake (match_loop taker book).taker ≤ℤ pos 0)
    ⊎ All (λ (r : ExchangeOrder). unmatched_stake r ≤ℤ pos 0) (match_loop taker book).makers
match_loop_exhausts_example = match_loop_exhausts taker book

abbrev pub fill : ExchangeFill
fill = record {
  id = 1;
  match_id = 7;
  selection = home;
  back_order = 3;
  lay_order = 1;
  odds = pos 220;
  stake = units 30;
  status = FillStatus.pending;
  commission_amount = none;
}

side_change_zero_sum_example :
    (side_change true back taker fill (pos 200)).balance
      +ℤ (side_change false lay maker fill (pos 200)).balance
    ≡ neg (commission_of (profit_of true fill) (pos 200) *ℤ pos 100)
side_change_zero_sum_example = side_change_zero_sum true taker maker fill (pos 200)

-- A custom lay price below the back price, which the floor lifts.
abbrev crossed : ResolvedPricingMode
crossed = record api_pricing { lay_mode = LayMode.custom; lay_custom_value_home = some (pos 150) }

back-lt-lay_example :
    (compute_back_and_lay (pos 215) crossed (pos 2) home).0
    <ℤ (compute_back_and_lay (pos 215) crossed (pos 2) home).1
back-lt-lay_example = back-lt-lay (pos 215) (pos 2) crossed home

abbrev prices : Prices
prices = record { price_home = some (pos 215); price_draw = none; price_away = some (pos 102) }

apply_odds_adjustment-IsFloored_example :
    IsFloored (some (pos 215)) (apply_odds_adjustment (neg (pos 50)) prices).price_home
    × IsFloored none (apply_odds_adjustment (neg (pos 50)) prices).price_draw
    × IsFloored (some (pos 102)) (apply_odds_adjustment (neg (pos 50)) prices).price_away
apply_odds_adjustment-IsFloored_example =
    apply_odds_adjustment-IsFloored (neg (pos 50)) prices (unfold neg in refl)

-- An order at a better price that came later, and one of the taker's own.
abbrev better_maker : ExchangeOrder
better_maker = record maker { id = 4; odds = pos 230; created_at = 4 }

abbrev own_maker : ExchangeOrder
own_maker = record maker { id = 5; user = 1 }

abbrev pub table : List ExchangeOrder
table = own_maker ∷ better_maker ∷ maker ∷ taker ∷ []

resting_for-InPriority_example :
    InPriority back (resting_for taker table)
    × All (Eligible taker) (resting_for taker table)
    × (length (select (is_counterparty taker) (resting_for taker table))
        ≡ length (select (is_counterparty taker) table))
resting_for-InPriority_example =
    resting_for-InPriority taker table (is_counterparty taker)
      (λ r h. counterparty-Eligible taker r h)

resting_for_order : resting_for taker table ≡ better_maker ∷ maker ∷ []
unfolding resting_for is_better
resting_for_order = refl
