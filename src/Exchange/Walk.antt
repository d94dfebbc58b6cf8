-- ===== src/Exchange/Walk.antt =====
-- The sizing of a cash-out: `_cash_out_target_notional`, `_resting_book_for_cash_out`,
-- `_simulate_cash_out_walk`, `_cash_out_guaranteed_value` and `preview_cash_out`. A notional, stake times
-- odds, counts a hundredth of the wallet's unit.
use quickpaybet.Prelude.{
  Bool, true, false, not, ◌&&◌, Option, none, some, List, [], ◌∷◌, select, ◌==◌, if◌then◌else◌,
}
use quickpaybet.Prelude.Int.{ℤ, pos, pos_part, ◌+ℤ◌, ◌-ℤ◌, ◌*ℤ◌, leb_ℤ}
use quickpaybet.Prelude.Decimal.{quantize}
use quickpaybet.Models.Money.{Money, Odds}
use quickpaybet.Models.Sports.{same_selection}
use quickpaybet.Models.Exchange.{
  back, lay, opposite, same_side, ExchangeOrder, ExchangeFill, is_open, is_pending_fill,
  unmatched_stake,
}
use quickpaybet.Models.Database.{Database}
use quickpaybet.Exchange.Matching.{sort_orders}

-- `ExchangeFill.objects.filter(back_order=order, …)`, or `lay_order=order`
abbrev pub is_fill_of : ExchangeOrder → ExchangeFill → Bool
is_fill_of o f =
    elim o.side [ back ↦ f.back_order == o.id | lay ↦ f.lay_order == o.id ]
    && is_pending_fill f.status

unfoldable pub profit_sum : List ExchangeFill → ℤ
profit_sum [] = pos 0
profit_sum (f ∷ fs) = f.stake *ℤ (f.odds -ℤ pos 100) +ℤ profit_sum fs

unfoldable pub cash_out_target_notional : ExchangeOrder → List ExchangeFill → ℤ
unfolding profit_sum
cash_out_target_notional o fills =
    o.matched_stake *ℤ pos 100 +ℤ profit_sum (select (is_fill_of o) fills)

abbrev pub is_in_book : ExchangeOrder → ExchangeOrder → Bool
is_in_book o r =
    r.match_id == o.match_id
    && same_selection r.selection o.selection
    && same_side r.side o.side
    && is_open r.status
    && not (r.user == o.user)

-- The book that a leg of the opposite side will meet, best price first.
unfoldable pub resting_book_for_cash_out : ExchangeOrder → List ExchangeOrder → List ExchangeOrder
unfolding sort_orders
resting_book_for_cash_out o orders = sort_orders (opposite o.side) (select (is_in_book o) orders)

pub record CashOutWalk : Type 0 where
  pub stake : Money
  pub worst_odds : Option Odds
  pub reached_target : Bool

-- The walk from a level on, with what was taken before it.
unfoldable pub walk_from : ℤ → ℤ → Money → Option Odds → List ExchangeOrder → CashOutWalk
unfolding unmatched_stake
walk_from target notional stake worst [] = record {
  stake = stake;
  worst_odds = worst;
  reached_target = false;
}
walk_from target notional stake worst (r ∷ rs) =
    let available = unmatched_stake r in
    let level = available *ℤ r.odds in
    let skip = walk_from target notional stake worst rs in
    let take = walk_from target (notional +ℤ level) (stake +ℤ available) (some r.odds) rs in
    if leb_ℤ available (pos 0)
    then skip
    else if leb_ℤ target (notional +ℤ level)
    then record {
      stake = stake +ℤ quantize (target -ℤ notional) (pos_part r.odds);
      worst_odds = some r.odds;
      reached_target = true;
    }
    else take

unfoldable pub simulate_cash_out_walk : ℤ → List ExchangeOrder → CashOutWalk
unfolding walk_from
simulate_cash_out_walk target book = walk_from target (pos 0) (pos 0) none book

unfoldable pub cash_out_guaranteed_value : ExchangeOrder → Money → Money
cash_out_guaranteed_value o leg = elim o.side [
  | back ↦ leg -ℤ o.matched_stake
  | lay ↦ o.matched_stake -ℤ leg
]

pub data CashOutStatus : Type 0 where
  no_liquidity full partial : CashOutStatus

pub record Preview : Type 0 where
  pub status : CashOutStatus
  pub estimated_value : Option Money

abbrev nothing : Preview
nothing = record { status = no_liquidity; estimated_value = none }

abbrev preview_of : ExchangeOrder → CashOutWalk → Option Odds → Preview
preview_of o walk none = nothing
preview_of o walk (some worst) =
    if walk.reached_target
    then record { status = full; estimated_value = some (cash_out_guaranteed_value o walk.stake) }
    else record { status = partial; estimated_value = none }

unfoldable pub preview_cash_out : ExchangeOrder → Database → Preview
unfolding cash_out_target_notional resting_book_for_cash_out simulate_cash_out_walk
    cash_out_guaranteed_value
preview_cash_out o s =
    let walk =
      simulate_cash_out_walk (cash_out_target_notional o s.fills)
        (resting_book_for_cash_out o s.orders) in
    if leb_ℤ o.matched_stake (pos 0) then nothing else preview_of o walk walk.worst_odds
