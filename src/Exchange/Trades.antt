-- ===== src/Exchange/Trades.antt =====
-- What the matching loop does with any list of resting orders.
use quickpaybet.Prelude.{◌≡◌, refl, false, List, [], ◌∷◌, arith, All, Bool-cases, inl, inr, ◌⊎◌}
use quickpaybet.Prelude.Int.{
  pos, parts, ◌+ℤ◌, ◌-ℤ◌, ◌≤ℤ◌, ◌<ℤ◌, int_laws, min_ℤ, min_ℤ_cases, leb_ℤ, leb_ℤ→le, leb_ℤ→gt,
}
use quickpaybet.Models.Money.{Money}
use quickpaybet.Models.Exchange.{ExchangeOrder, unmatched_stake}
use quickpaybet.Exchange.Matching.{Trade, match_loop, fill_order}

-- The stake of the fills, and the stake that orders have matched.
abbrev pub traded : List Trade → Money
traded [] = pos 0
traded (t ∷ ts) = t.stake +ℤ traded ts

abbrev pub matched_total : List ExchangeOrder → Money
matched_total [] = pos 0
matched_total (o ∷ os) = o.matched_stake +ℤ matched_total os

-- Not more is matched than was asked.
abbrev pub IsWithin : ExchangeOrder → Type 0
IsWithin o = o.matched_stake ≤ℤ o.stake

-- The matched stake of the new order grows by exactly the stake of the fills, and so does the matched stake of the resting orders together.
pub match_loop-conserves :
    (o : ExchangeOrder) (rs : List ExchangeOrder)
    → let done = match_loop o rs in
      (done.taker.matched_stake ≡ o.matched_stake +ℤ traded done.trades)
      × (matched_total done.makers ≡ matched_total rs +ℤ traded done.trades)
unfolding match_loop
match_loop-conserves o [] = (omega int_laws, omega int_laws)
match_loop-conserves o (r ∷ rs) = elim (Bool-cases (leb_ℤ (unmatched_stake o) (pos 0))) [
  | inl filled ↦ rw filled (omega int_laws, omega int_laws)
  | inr wants ↦ elim (Bool-cases (leb_ℤ (unmatched_stake r) (pos 0))) [
    | inl empty ↦
        let (own, others) = match_loop-conserves o rs in
        rw (wants, empty) (own, omega (int_laws, parts others))
    | inr offers ↦
        let stake = min_ℤ (unmatched_stake o) (unmatched_stake r) in
        let (own, others) = match_loop-conserves (fill_order stake o) rs in
        rw (wants, offers) (omega (int_laws, parts own), omega (int_laws, parts others))
  ]
]

-- The fill of two orders that both have stake left.
min-unmatched :
    (o r : ExchangeOrder)
    → leb_ℤ (unmatched_stake o) (pos 0) ≡ false
    → leb_ℤ (unmatched_stake r) (pos 0) ≡ false
    → let stake = min_ℤ (unmatched_stake o) (unmatched_stake r) in
      (pos 0 <ℤ stake) × IsWithin (fill_order stake o) × IsWithin (fill_order stake r)
unfolding unmatched_stake
min-unmatched o r wants offers =
    let a = leb_ℤ→gt (o.stake -ℤ o.matched_stake) (pos 0) wants in
    let b = leb_ℤ→gt (r.stake -ℤ r.matched_stake) (pos 0) offers in
    elim (min_ℤ_cases (o.stake -ℤ o.matched_stake) (r.stake -ℤ r.matched_stake)) [
      | inl (e, le) ↦
          rw e (omega (int_laws, a, b, le), omega (int_laws, a, b, le), omega (int_laws, a, b, le))
      | inr (e, le) ↦
          rw e (omega (int_laws, a, b, le), omega (int_laws, a, b, le), omega (int_laws, a, b, le))
    ]

-- Where no order was matched beyond its stake, none is after the matching loop, resting or new, and every fill has a stake above zero.
pub match_loop-IsWithin :
    (o : ExchangeOrder) (rs : List ExchangeOrder)
    → IsWithin o
    → All IsWithin rs
    → let done = match_loop o rs in
      IsWithin done.taker
      × All IsWithin done.makers
      × All (λ (t : Trade). pos 0 <ℤ t.stake) done.trades
unfolding match_loop
match_loop-IsWithin o [] h hs = (h, tt, tt)
match_loop-IsWithin o (r ∷ rs) h hs = elim (Bool-cases (leb_ℤ (unmatched_stake o) (pos 0))) [
  | inl filled ↦ rw filled (h, hs, tt)
  | inr wants ↦ elim (Bool-cases (leb_ℤ (unmatched_stake r) (pos 0))) [
    | inl empty ↦
        let (own, others, positive) = match_loop-IsWithin o rs h hs.1 in
        rw (wants, empty) (own, (hs.0, others), positive)
    | inr offers ↦
        let (p, ho, hr) = min-unmatched o r wants offers in
        let stake = min_ℤ (unmatched_stake o) (unmatched_stake r) in
        let (own, others, positive) = match_loop-IsWithin (fill_order stake o) rs ho hs.1 in
        rw (wants, offers) (own, (hr, others), (p, positive))
  ]
]

-- An order that is filled meets no more resting orders.
match_loop_filled :
    (o : ExchangeOrder) (rs : List ExchangeOrder)
    → unmatched_stake o ≤ℤ pos 0
    → (match_loop o rs).taker ≡ o
unfolding match_loop
match_loop_filled o [] h = refl
match_loop_filled o (r ∷ rs) h = ground arith

-- One fill uses up the order or the resting order.
fill_uses_up :
    (o r : ExchangeOrder)
    → let stake = min_ℤ (unmatched_stake o) (unmatched_stake r) in
      (unmatched_stake (fill_order stake o) ≤ℤ pos 0)
      ⊎ (unmatched_stake (fill_order stake r) ≤ℤ pos 0)
unfolding unmatched_stake
fill_uses_up o r = elim (min_ℤ_cases (o.stake -ℤ o.matched_stake) (r.stake -ℤ r.matched_stake)) [
  | inl (e, le) ↦ inl (rw e (omega int_laws))
  | inr (e, le) ↦ inr (rw e (omega int_laws))
]

-- After the matching loop over any resting orders, the new order has no stake left to match, or no resting order has.
pub match_loop_exhausts :
    (o : ExchangeOrder) (rs : List ExchangeOrder)
    → let done = match_loop o rs in
      (unmatched_stake done.taker ≤ℤ pos 0)
      ⊎ All (λ (r : ExchangeOrder). unmatched_stake r ≤ℤ pos 0) done.makers
unfolding match_loop
match_loop_exhausts o [] = inr tt
match_loop_exhausts o (r ∷ rs) = elim (Bool-cases (leb_ℤ (unmatched_stake o) (pos 0))) [
  | inl filled ↦ rw filled (inl (leb_ℤ→le (unmatched_stake o) (pos 0) filled))
  | inr wants ↦ elim (Bool-cases (leb_ℤ (unmatched_stake r) (pos 0))) [
    | inl empty ↦
        rw (wants, empty)
          (elim (match_loop_exhausts o rs) [
            | inl h ↦ inl h
            | inr hs ↦ inr (leb_ℤ→le (unmatched_stake r) (pos 0) empty, hs)
          ])
    | inr offers ↦
        let o' = fill_order (min_ℤ (unmatched_stake o) (unmatched_stake r)) o in
        rw (wants, offers)
          (elim (fill_uses_up o r) [
            | inl h ↦ inl (rw (match_loop_filled o' rs h) h)
            | inr h ↦ elim (match_loop_exhausts o' rs) [ inl k ↦ inl k | inr ks ↦ inr (h, ks) ]
          ])
  ]
]
