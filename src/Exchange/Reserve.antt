-- ===== src/Exchange/Reserve.antt =====
-- What a fill takes from the side that loses, beside what it releases of that side's reservation.
use quickpaybet.Prelude.{
  ap, sym, ◌∙◌, ℕ, ◌≡◌, false, List, [], ◌∷◌, All, All-map, Bool-cases, inl, inr, arith,
}
use quickpaybet.Prelude.Int.{
  pos, ◌+ℤ◌, ◌-ℤ◌, ◌*ℤ◌, ◌≤ℤ◌, leb_ℤ, min_ℤ, int_laws, *ℤ_parts, parts, *ℤ-distrib_left,
}
use quickpaybet.Models.Money.{Odds, Percent}
use quickpaybet.Models.Exchange.{
  Side, back, lay, opposite, ExchangeOrder, ExchangeFill, unmatched_stake,
}
use quickpaybet.Exchange.Matching.{
  exposure, exposure_rate, Trade, match_loop, fill_order, resting_for,
}
use quickpaybet.Exchange.Orders.{fill_of}
use quickpaybet.Exchange.Fills.{side_change}
use quickpaybet.Exchange.Eligible.{Eligible, Accepts}
use quickpaybet.Exchange.Priority.{resting_for-Eligible}

-- A lay order's gain from a price below its own; a back order's stake is its loss at any price.
abbrev pub improvement : Side → Odds → Odds → Odds
improvement back wanted executed = pos 0
improvement lay wanted executed = wanted -ℤ executed

-- If `order` loses the fill, its balance falls by what its reservation falls by, less the stake times the improvement, which is not negative.
pub record IsCovered (side : Side) (order : ExchangeOrder) (f : ExchangeFill) (rate : Percent)
    : Type 0 where
  pub exact :
      (side_change false side order f rate).balance
      ≡ (side_change false side order f rate).reserved
        +ℤ f.stake *ℤ improvement side order.odds f.odds
  pub improves : pos 0 ≤ℤ improvement side order.odds f.odds

loss-exact :
    (side : Side) (order : ExchangeOrder) (f : ExchangeFill) (rate : Percent)
    → (side_change false side order f rate).balance
      ≡ (side_change false side order f rate).reserved
        +ℤ f.stake *ℤ improvement side order.odds f.odds
unfolding side_change exposure exposure_rate
loss-exact back order f rate = omega (int_laws, *ℤ_parts f.stake (pos 0))
loss-exact lay order f rate =
    let split : order.odds -ℤ f.odds +ℤ (f.odds -ℤ pos 100) ≡ order.odds -ℤ pos 100 =
      omega int_laws in
    let d = *ℤ-distrib_left f.stake (order.odds -ℤ f.odds) (f.odds -ℤ pos 100) in
    omega (int_laws, parts (ap (λ x. f.stake *ℤ x) (sym split) ∙ d))

module _ (P : ExchangeOrder → Type 0) where
  makers-All :
      (o : ExchangeOrder) (rs : List ExchangeOrder)
      → All P rs
      → All (λ (t : Trade). P t.maker) (match_loop o rs).trades
  unfolding match_loop
  makers-All o [] h = tt
  makers-All o (r ∷ rs) h = elim (Bool-cases (leb_ℤ (unmatched_stake o) (pos 0))) [
    | inl filled ↦ rw filled tt
    | inr wants ↦ elim (Bool-cases (leb_ℤ (unmatched_stake r) (pos 0))) [
      | inl empty ↦ rw (wants, empty) (makers-All o rs h.1)
      | inr offers ↦
          rw (wants, offers)
            (h.0, makers-All (fill_order (min_ℤ (unmatched_stake o) (unmatched_stake r)) o) rs h.1)
    ]
  ]

improves-taker : (side : Side) (p q : Odds) → Accepts side p q → pos 0 ≤ℤ improvement side p q
improves-taker back p q h = omega arith
improves-taker lay p q h = omega (int_laws, h)

improves-maker : (side : Side) (p : Odds) → pos 0 ≤ℤ improvement side p p
improves-maker back p = omega arith
improves-maker lay p = omega int_laws

-- The two sides of the fill that a trade makes.
abbrev pub BothCovered : ExchangeOrder → ℕ → Percent → Trade → Type 0
BothCovered o k rate t =
    IsCovered o.side o (fill_of o k t) rate
    × IsCovered (opposite o.side) t.maker (fill_of o k t) rate

Eligible-BothCovered :
    (o : ExchangeOrder) (k : ℕ) (rate : Percent) (t : Trade)
    → Eligible o t.maker
    → BothCovered o k rate t
Eligible-BothCovered o k rate t h = (
  record {
    exact = loss-exact o.side o (fill_of o k t) rate;
    improves = improves-taker o.side o.odds t.maker.odds h.accepted;
  },
  record {
    exact = loss-exact (opposite o.side) t.maker (fill_of o k t) rate;
    improves = improves-maker (opposite o.side) t.maker.odds;
  },
)

-- For every fill that the loop makes of a new order and the orders it is given, either side, if it loses, has its balance lowered by what its reservation is lowered by, less the fill's stake times the improvement of the price, before columns round; the improvement is nothing for a back order and the order's odds less the fill's for a lay order, and it is never negative.
pub match_loop-BothCovered :
    (o : ExchangeOrder) (orders : List ExchangeOrder) (k : ℕ) (rate : Percent)
    → All (BothCovered o k rate) (match_loop o (resting_for o orders)).trades
match_loop-BothCovered o orders k rate =
    All-map (Eligible-BothCovered o k rate) _
      (makers-All (Eligible o) o (resting_for o orders) (resting_for-Eligible o orders))
