-- ===== src/Exchange/Matching.antt =====
-- `_exposure_rate` and `_match_order`: the order book, and the loop over the resting orders.
use quickpaybet.Prelude.{Bool, not, ◌&&◌, ◌||◌, List, [], ◌∷◌, select, ◌==◌, ltb, if◌then◌else◌}
use quickpaybet.Prelude.Int.{ℤ, pos, ◌+ℤ◌, ◌-ℤ◌, ◌*ℤ◌, leb_ℤ, ltb_ℤ, min_ℤ}
use quickpaybet.Models.Money.{Money, Odds}
use quickpaybet.Models.Sports.{same_selection}
use quickpaybet.Models.Exchange.{
  Side, back, lay, opposite, same_side, ExchangeOrder, is_open, unmatched_stake,
}

-- The reserved amount for one unit of stake, counted in 0.01.
unfoldable pub exposure_rate : Side → Odds → Odds
exposure_rate back odds = pos 100
exposure_rate lay odds = odds -ℤ pos 100

-- `stake * _exposure_rate(side, odds)`, counted in a hundredth of the wallet's unit.
unfoldable pub exposure : Side → Odds → Money → ℤ
unfolding exposure_rate
exposure side odds stake = stake *ℤ exposure_rate side odds

-- Whether a resting order's price is one that an order of this side and price accepts.
unfoldable pub is_acceptable : Side → Odds → Odds → Bool
is_acceptable back wanted offered = leb_ℤ wanted offered
is_acceptable lay wanted offered = leb_ℤ offered wanted

-- `order_by('-odds', 'created_at')` for a back order, `order_by('odds', 'created_at')` for a lay order.
unfoldable pub is_better : Side → ExchangeOrder → ExchangeOrder → Bool
is_better back x y =
    ltb_ℤ y.odds x.odds || not (ltb_ℤ x.odds y.odds) && ltb x.created_at y.created_at
is_better lay x y =
    ltb_ℤ x.odds y.odds || not (ltb_ℤ y.odds x.odds) && ltb x.created_at y.created_at

unfoldable pub insert_order : Side → ExchangeOrder → List ExchangeOrder → List ExchangeOrder
unfolding is_better
insert_order side x [] = x ∷ []
insert_order side x (y ∷ ys) = if is_better side x y then x ∷ y ∷ ys else y ∷ insert_order side x ys

unfoldable pub sort_orders : Side → List ExchangeOrder → List ExchangeOrder
unfolding insert_order
sort_orders side [] = []
sort_orders side (x ∷ xs) = insert_order side x (sort_orders side xs)

-- The rows that the query of `_match_order` selects.
unfoldable pub is_counterparty : ExchangeOrder → ExchangeOrder → Bool
unfolding is_acceptable
is_counterparty o r =
    r.match_id == o.match_id
    && same_selection r.selection o.selection
    && same_side r.side (opposite o.side)
    && is_open r.status
    && not (r.user == o.user)
    && is_acceptable o.side o.odds r.odds

unfoldable pub resting_for : ExchangeOrder → List ExchangeOrder → List ExchangeOrder
unfolding sort_orders is_counterparty
resting_for o orders = sort_orders o.side (select (is_counterparty o) orders)

-- One fill: the resting order, as it was, and the stake.
pub record Trade : Type 0 where
  pub maker : ExchangeOrder
  pub stake : Money

abbrev pub fill_order : Money → ExchangeOrder → ExchangeOrder
fill_order stake o = record o { matched_stake = o.matched_stake +ℤ stake }

-- What the loop leaves: the order, the resting orders in their sequence, and the fills, first to last.
pub record Matched : Type 0 where
  pub taker : ExchangeOrder
  pub makers : List ExchangeOrder
  pub trades : List Trade

-- The loop: `break` when the order is filled, `continue` past a resting order that is.
unfoldable pub match_loop : ExchangeOrder → List ExchangeOrder → Matched
unfolding unmatched_stake
match_loop o [] = record { taker = o; makers = []; trades = [] }
match_loop o (r ∷ rs) =
    let stake = min_ℤ (unmatched_stake o) (unmatched_stake r) in
    let skip = match_loop o rs in
    let take = match_loop (fill_order stake o) rs in
    if leb_ℤ (unmatched_stake o) (pos 0)
    then record { taker = o; makers = r ∷ rs; trades = [] }
    else if leb_ℤ (unmatched_stake r) (pos 0)
    then record { taker = skip.taker; makers = r ∷ skip.makers; trades = skip.trades }
    else record {
      taker = take.taker;
      makers = fill_order stake r ∷ take.makers;
      trades = record { maker = r; stake = stake } ∷ take.trades;
    }
