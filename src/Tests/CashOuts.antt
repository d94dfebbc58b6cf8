-- ===== src/Tests/CashOuts.antt =====
-- A cash-out, the house's offers, and a match that is over, on small inputs.
use quickpaybet.Prelude.{◌≡◌, refl, true, false, none, some, List, [], ◌∷◌, arith}
use quickpaybet.Prelude.Int.{pos, ◌+ℤ◌, ◌-ℤ◌, ◌*ℤ◌, ◌≤ℤ◌, ◌<ℤ◌}
use quickpaybet.Prelude.Table.{get_row, put_row}
use quickpaybet.Models.Money.{Odds}
use quickpaybet.Models.Sports.{home, cancelled, Match}
use quickpaybet.Models.Bets.{Bet, BetStatus}
use quickpaybet.Models.Exchange.{
  back, lay, ExchangeOrder, ExchangeFill, FillStatus, OrderStatus, unmatched_stake,
}
use quickpaybet.Models.Database.{Database}
use quickpaybet.Action.{ok, returns, ◌▸◌, ◌>>=◌}
use quickpaybet.Exchange.Matching.{match_loop, exposure}
use quickpaybet.Exchange.Trades.{traded}
use quickpaybet.Exchange.Walk.{
  cash_out_target_notional, simulate_cash_out_walk, cash_out_guaranteed_value,
}
use quickpaybet.Exchange.Hedge.{Near}
use quickpaybet.Exchange.Equal.{if_won, if_lost, cash_out-IsEqual}
use quickpaybet.Exchange.House.{stake_to_offer, headroom}
use quickpaybet.Exchange.Cap.{stake_to_offer-IsCapped}
use quickpaybet.Bets.MatchSettle.{settle_bets_for_match, is_pending_on, refund_bets, lock_bet}
use quickpaybet.Bets.Settle.{refund_bet}
use quickpaybet.Bets.ParlaySettle.{settle_parlays_for_match}
use quickpaybet.Prelude.Decimal.{by_sign, half_even}
use quickpaybet.Bets.Complete.{settle_bets_for_match-completes}
use quickpaybet.Tests.HalfEven.{half_even_column}
use quickpaybet.Tests.Data.{units, played}
use quickpaybet.Tests.Services.{funded}

-- A back order of thirty at 2.20, matched, and a book of backs at 1.80 and 1.90.
abbrev position : ExchangeOrder
position = record {
  id = 3;
  user = 1;
  match_id = 7;
  selection = home;
  side = back;
  odds = pos 220;
  stake = units 30;
  matched_stake = units 30;
  status = OrderStatus.opened;
  created_at = 3;
}

abbrev fill : ExchangeFill
fill = record {
  id = 1;
  match_id = 7;
  selection = home;
  back_order = 3;
  lay_order = 1;
  odds = pos 220;
  stake = units 30;
  status = FillStatus.pending;
  commission_amount = none;
}

abbrev short : ExchangeOrder
short = record position {
  id = 4;
  user = 2;
  odds = pos 180;
  stake = units 10;
  matched_stake = pos 0;
}

abbrev long : ExchangeOrder
long = record short { id = 5; odds = pos 190; stake = units 100 }

abbrev book : List ExchangeOrder
book = short ∷ long ∷ []

-- Ten at 1.80 and 25.26315789 at 1.90.
abbrev leg : ExchangeOrder
leg = record position {
  id = 6;
  side = lay;
  odds = pos 190;
  stake = pos 3526315789;
  matched_stake = pos 0;
}

sized :
    unmatched_stake leg
    ≡ (simulate_cash_out_walk (cash_out_target_notional position (fill ∷ [])) book).stake
unfolding unmatched_stake simulate_cash_out_walk cash_out_target_notional ◌-ℤ◌ ◌+ℤ◌ ◌*ℤ◌ by_sign
    half_even
sized = refl

reached :
    (simulate_cash_out_walk (cash_out_target_notional position (fill ∷ [])) book).reached_target
    ≡ true
unfolding simulate_cash_out_walk cash_out_target_notional ◌-ℤ◌ ◌+ℤ◌ ◌*ℤ◌
reached = refl

target_above : pos 0 ≤ℤ cash_out_target_notional position (fill ∷ [])
unfolding cash_out_target_notional ◌-ℤ◌ ◌+ℤ◌ ◌*ℤ◌
target_above = omega arith

cash_out-IsEqual_example :
    let ts = (match_loop leg book).trades in
    (w : Odds) × ((simulate_cash_out_walk
        (cash_out_target_notional position (fill ∷ []))
        book).worst_odds
      ≡ some w)
    × Near (if_won position (fill ∷ []) ts) (if_lost position ts) w
    × (if_lost position ts ≡ cash_out_guaranteed_value position (traded ts) *ℤ pos 100)
cash_out-IsEqual_example =
    cash_out-IsEqual position (fill ∷ []) book leg (omega arith, (omega arith, tt)) target_above
      reached sized

below_cap : units 300 *ℤ pos 100 <ℤ units 1000 *ℤ pos 100
unfolding ◌*ℤ◌
below_cap = omega arith

stake_to_offer-IsCapped_example :
    let liability = units 300 *ℤ pos 100 in
    let room = headroom (units 1000) liability in
    let backs = exposure back (pos 215) (stake_to_offer room back (pos 215)) in
    let lays = exposure lay (pos 217) (stake_to_offer room lay (pos 217)) in
    (liability +ℤ backs +ℤ lays ≤ℤ units 1000 *ℤ pos 100)
    × (units 1000 *ℤ pos 100 <ℤ liability +ℤ backs +ℤ lays +ℤ pos 217)
stake_to_offer-IsCapped_example =
    stake_to_offer-IsCapped (units 1000) (units 300 *ℤ pos 100) (pos 215) (pos 217) below_cap
      (omega arith)

abbrev slip : Bet
slip = record {
  id = 1;
  user = 1;
  match_id = 7;
  selection = home;
  odds = pos 215;
  stake = units 20;
  potential_payout = units 43;
  status = BetStatus.pending;
}

abbrev open_slip : Database
open_slip = record funded { bets = slip ∷ [] }

abbrev called_off : Match
called_off = record played { status = cancelled }

called_off_settled :
    returns (settle_bets_for_match ⦃c = half_even_column⦄ called_off) open_slip ≡ ok tt
unfolding settle_bets_for_match ◌>>=◌ get_row put_row ◌*ℤ◌ ◌+ℤ◌ refund_bets lock_bet refund_bet
    settle_parlays_for_match
called_off_settled = refl

slip_refunded :
    get_row Bet.id 1 (open_slip ▸ settle_bets_for_match ⦃c = half_even_column⦄ called_off).bets
    ≡ some (record slip { status = BetStatus.refunded })
unfolding settle_bets_for_match ◌>>=◌ get_row put_row ◌*ℤ◌ ◌+ℤ◌ refund_bets lock_bet refund_bet
    settle_parlays_for_match
slip_refunded = refl

settle_bets_for_match-completes_example :
    is_pending_on called_off (record slip { status = BetStatus.refunded }) ≡ false
settle_bets_for_match-completes_example =
    settle_bets_for_match-completes ⦃c = half_even_column⦄ called_off open_slip refl
      called_off_settled 1 (record slip { status = BetStatus.refunded }) slip_refunded
