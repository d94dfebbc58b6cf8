-- ===== src/Exchange/Equal.antt =====
-- The result of a position and the leg that cashes it out, for both ways that the match can go.
use quickpaybet.Prelude.{◌≡◌, ap, ◌*◌, true, some, none, List, [], ◌∷◌, All, select}
use quickpaybet.Prelude.Int.{
  ℤ, pos, neg, pos_part, neg_part, -ℤ_parts, parts, ◌+ℤ◌, ◌-ℤ◌, ◌*ℤ◌, ◌≤ℤ◌, ◌<ℤ◌, int_laws,
  *ℤ_parts,
}
use quickpaybet.Models.Money.{Odds}
use quickpaybet.Models.Exchange.{Side, back, lay, ExchangeOrder, ExchangeFill, unmatched_stake}
use quickpaybet.Exchange.Matching.{Trade, match_loop}
use quickpaybet.Exchange.Trades.{traded}
use quickpaybet.Exchange.Walk.{
  is_fill_of, profit_sum, cash_out_target_notional, simulate_cash_out_walk,
  cash_out_guaranteed_value,
}
use quickpaybet.Exchange.Hedge.{notional, Near, walk-lands}

-- What the backer of these fills gains if the selection wins.
abbrev pub trade_profit : List Trade → ℤ
trade_profit [] = pos 0
trade_profit (t ∷ ts) = t.stake *ℤ (t.maker.odds -ℤ pos 100) +ℤ trade_profit ts

-- A backer's result, or that of the layer against it.
abbrev pub seen_by : Side → ℤ → ℤ
seen_by back x = x
seen_by lay x = neg x

-- What an order with these fills, and a leg of the opposite side with these trades, bring before
-- commission, in hundredths of the unit.
abbrev pub if_won : ExchangeOrder → List ExchangeFill → List Trade → ℤ
if_won o fills ts = seen_by o.side (profit_sum (select (is_fill_of o) fills) -ℤ trade_profit ts)

abbrev pub if_lost : ExchangeOrder → List Trade → ℤ
if_lost o ts = seen_by o.side (traded ts *ℤ pos 100 -ℤ o.matched_stake *ℤ pos 100)

times_minus : (n x : ℤ) → n *ℤ (x -ℤ pos 100) ≡ n *ℤ x -ℤ n *ℤ pos 100
times_minus n x = omega (
  int_laws,
  *ℤ_parts n (x -ℤ pos 100),
  *ℤ_parts n x,
  *ℤ_parts n (pos 100),
  ap (λ t. pos_part n * t) (-ℤ_parts x (pos 100)),
  ap (λ t. neg_part n * t) (-ℤ_parts x (pos 100)),
)

trade_profit-notional : (ts : List Trade) → trade_profit ts ≡ notional ts -ℤ traded ts *ℤ pos 100
trade_profit-notional [] = omega (int_laws, *ℤ_parts (pos 0) (pos 100))
trade_profit-notional (t ∷ ts) = omega (
  int_laws,
  parts (trade_profit-notional ts),
  parts (times_minus t.stake t.maker.odds),
  *ℤ_parts t.stake (pos 100),
  *ℤ_parts (traded ts) (pos 100),
  *ℤ_parts (t.stake +ℤ traded ts) (pos 100),
)

equalised :
    (side : Side) (p m n t w : ℤ)
    → Near (pos 0 +ℤ n) (m +ℤ p) w
    → Near (seen_by side (p -ℤ (n -ℤ t))) (seen_by side (t -ℤ m)) w
equalised back p m n t w near = (omega (int_laws, near.0, near.1), omega (int_laws, near.0, near.1))
equalised lay p m n t w near = (omega (int_laws, near.0, near.1), omega (int_laws, near.0, near.1))

by_side :
    (side : Side) (m t : ℤ)
    → seen_by side (t *ℤ pos 100 -ℤ m *ℤ pos 100)
      ≡ elim side [ back ↦ t -ℤ m | lay ↦ m -ℤ t ] *ℤ pos 100
by_side back m t =
    omega (int_laws, *ℤ_parts t (pos 100), *ℤ_parts m (pos 100), *ℤ_parts (t -ℤ m) (pos 100))
by_side lay m t =
    omega (int_laws, *ℤ_parts t (pos 100), *ℤ_parts m (pos 100), *ℤ_parts (m -ℤ t) (pos 100))

guaranteed_is_lost :
    (o : ExchangeOrder) (ts : List Trade)
    → if_lost o ts ≡ cash_out_guaranteed_value o (traded ts) *ℤ pos 100
unfolding cash_out_guaranteed_value
guaranteed_is_lost o ts = by_side o.side o.matched_stake (traded ts)

-- The leg of a cash-out that reached its target, filled from the book that was walked, makes the order's result the same whether its selection wins or loses, to within half of one unit of stake at the leg's price, before commission; and the result if it loses is the value that the cash-out announces.
pub cash_out-IsEqual :
    (o : ExchangeOrder) (fills : List ExchangeFill) (book : List ExchangeOrder)
    (leg : ExchangeOrder)
    → All (λ (r : ExchangeOrder). pos 0 <ℤ r.odds) book
    → pos 0 ≤ℤ cash_out_target_notional o fills
    → let walk = simulate_cash_out_walk (cash_out_target_notional o fills) book in
      walk.reached_target ≡ true
      → unmatched_stake leg ≡ walk.stake
      → let ts = (match_loop leg book).trades in
        (w : Odds) × (walk.worst_odds ≡ some w)
        × Near (if_won o fills ts) (if_lost o ts) w
        × (if_lost o ts ≡ cash_out_guaranteed_value o (traded ts) *ℤ pos 100)
unfolding cash_out_target_notional simulate_cash_out_walk
cash_out-IsEqual o fills book leg h above reached sized =
    let ts = (match_loop leg book).trades in
    let target = cash_out_target_notional o fills in
    let (w, is_w, near) =
      walk-lands target (pos 0) (pos 0) none book leg h above reached
        (omega (int_laws, parts sized)) in
    (
      w,
      is_w,
      rw trade_profit-notional (
          equalised o.side (profit_sum (select (is_fill_of o) fills)) (o.matched_stake *ℤ pos 100)
            (notional ts) (traded ts *ℤ pos 100) w near),
      guaranteed_is_lost o ts,
    )
