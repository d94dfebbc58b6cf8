-- ===== src/Exchange/Hedge.antt =====
-- What the leg of a cash-out fills, and what it locks in.
use quickpaybet.Prelude.{
  ◌≡◌, refl, true, Option, some, List, [], ◌∷◌, All, Bool-cases, inl, inr, arith,
}
use quickpaybet.Prelude.Int.{
  ℤ, pos, negsuc, pos_part, parts, ◌+ℤ◌, ◌-ℤ◌, ◌*ℤ◌, ◌≤ℤ◌, ◌<ℤ◌, int_laws, leb_ℤ, leb_ℤ→le,
  leb_ℤ→gt, min_ℤ, min_ℤ_cases, *ℤ_pos, *ℤ_parts,
}
use quickpaybet.Prelude.Decimal.{quantize, by_sign, half_even, half_even_bounds, half_even-le}
use mathlib.Core.Path.{subst}
use quickpaybet.Models.Money.{Money, Odds}
use quickpaybet.Models.Exchange.{ExchangeOrder, unmatched_stake}
use quickpaybet.Exchange.Matching.{Trade, match_loop, fill_order}
use quickpaybet.Exchange.Walk.{walk_from}

-- Stake times odds, over the fills.
abbrev pub notional : List Trade → ℤ
notional [] = pos 0
notional (t ∷ ts) = t.stake *ℤ t.maker.odds +ℤ notional ts

-- `x` is within half of `w` of `y`.
abbrev pub Near : ℤ → ℤ → ℤ → Type 0
Near x y w = (x +ℤ x ≤ℤ y +ℤ y +ℤ w) × (y +ℤ y ≤ℤ x +ℤ x +ℤ w)

-- A division rounded to the nearest stake.
quantize-Near :
    (n a o : ℤ)
    → pos 0 ≤ℤ n
    → pos 0 <ℤ o
    → n ≤ℤ a *ℤ o
    → pos 0 ≤ℤ a
    → let q = quantize n (pos_part o) in Near (q *ℤ o) n o × (pos 0 ≤ℤ q) × (q ≤ℤ a)
unfolding by_sign
quantize-Near (pos n) (pos a) (pos d) hn ho le ha =
    let b = half_even_bounds n d (omega (arith, ho)) in
    let m = half_even-le n a d (omega (arith, ho)) (omega (arith, (rw *ℤ_pos at le))) in
    rw (*ℤ_pos (half_even n d) d)
      ((omega (int_laws, b.0, b.1), omega (int_laws, b.0, b.1)), omega (arith, m), omega (arith, m))
quantize-Near (pos n) (pos a) (negsuc d) hn ho le ha = absurd (omega (arith, ho))
quantize-Near (pos n) (negsuc a) o hn ho le ha = absurd (omega (arith, ha))
quantize-Near (negsuc n) a o hn ho le ha = absurd (omega (arith, hn))

zero_times : (o : ℤ) → pos 0 *ℤ o ≡ pos 0
zero_times o = omega (int_laws, *ℤ_parts (pos 0) o)

min-left : (a b : ℤ) → a ≤ℤ b → min_ℤ a b ≡ a
unfolding min_ℤ
min-left a b h = ground (arith, h)

min-right : (a b : ℤ) → b ≤ℤ a → min_ℤ a b ≡ b
min-right a b h = elim (min_ℤ_cases a b) [
  | inl (e, le) ↦ omega (int_laws, parts e, le)
  | inr (e, le) ↦ e
]

-- An order that is filled trades no more.
trades_filled :
    (o : ExchangeOrder) (rs : List ExchangeOrder)
    → unmatched_stake o ≤ℤ pos 0
    → (match_loop o rs).trades ≡ []
unfolding match_loop
trades_filled o [] h = refl
trades_filled o (r ∷ rs) h = ground arith

unmatched-fill :
    (o : ExchangeOrder) (n : Money) → unmatched_stake (fill_order n o) ≡ unmatched_stake o -ℤ n
unfolding unmatched_stake
unmatched-fill o n = omega int_laws

module _ (target : ℤ) where
  -- The walk only adds stake.
  walk-grows :
      (notional : ℤ) (stake : Money) (worst : Option Odds) (rs : List ExchangeOrder)
      → All (λ (r : ExchangeOrder). pos 0 <ℤ r.odds) rs
      → notional ≤ℤ target
      → stake ≤ℤ (walk_from target notional stake worst rs).stake
  unfolding walk_from
  walk-grows c st worst [] h le = omega arith
  walk-grows c st worst (r ∷ rs) h le =
      let a = unmatched_stake r in
      elim (Bool-cases (leb_ℤ a (pos 0))) [
        | inl empty ↦ rw empty (walk-grows c st worst rs h.1 le)
        | inr offers ↦
            let some_left = leb_ℤ→gt a (pos 0) offers in
            elim (Bool-cases (leb_ℤ target (c +ℤ a *ℤ r.odds))) [
              | inl last ↦
                  let q =
                    quantize-Near (target -ℤ c) a r.odds (omega (int_laws, le)) h.0
                      (omega (int_laws, leb_ℤ→le target (c +ℤ a *ℤ r.odds) last))
                      (omega (int_laws, some_left)) in
                  rw (offers, last) (omega (int_laws, q.1))
              | inr more ↦
                  let k =
                    walk-grows (c +ℤ a *ℤ r.odds) (st +ℤ a) (some r.odds) rs h.1
                      (omega (int_laws, leb_ℤ→gt target (c +ℤ a *ℤ r.odds) more)) in
                  rw (offers, more) (omega (int_laws, k, some_left))
            ]
      ]

  -- A walk that reached its target without adding stake was at its target, up to half a stake's notional.
  walk-still :
      (c : ℤ) (st : Money) (worst : Option Odds) (rs : List ExchangeOrder)
      → All (λ (r : ExchangeOrder). pos 0 <ℤ r.odds) rs
      → c ≤ℤ target
      → let walk = walk_from target c st worst rs in
        walk.reached_target ≡ true
        → walk.stake ≤ℤ st
        → (w : Odds) × (walk.worst_odds ≡ some w) × Near c target w
  unfolding walk_from
  walk-still c st worst [] h le = λ reached small. absurd (cc reached)
  walk-still c st worst (r ∷ rs) h le =
      let a = unmatched_stake r in
      elim (Bool-cases (leb_ℤ a (pos 0))) [
        | inl empty ↦ rw empty (walk-still c st worst rs h.1 le)
        | inr offers ↦
            let some_left = leb_ℤ→gt a (pos 0) offers in
            elim (Bool-cases (leb_ℤ target (c +ℤ a *ℤ r.odds))) [
              | inl last ↦
                  let (near, low, high) =
                    quantize-Near (target -ℤ c) a r.odds (omega (int_laws, le)) h.0
                      (omega (int_laws, leb_ℤ→le target (c +ℤ a *ℤ r.odds) last))
                      (omega (int_laws, some_left)) in
                  rw (offers, last)
                    (λ reached small.
                      let q = quantize (target -ℤ c) (pos_part r.odds) in
                      let none_taken : q ≡ pos 0 = omega (int_laws, low, small) in
                      let z : q *ℤ r.odds ≡ pos 0 = rw none_taken (zero_times r.odds) in
                      (
                        r.odds,
                        refl,
                        (omega (int_laws, near.0, parts z), omega (int_laws, near.1, parts z)),
                      ))
              | inr more ↦
                  let k =
                    walk-grows (c +ℤ a *ℤ r.odds) (st +ℤ a) (some r.odds) rs h.1
                      (omega (int_laws, leb_ℤ→gt target (c +ℤ a *ℤ r.odds) more)) in
                  rw (offers, more)
                    (λ reached small. absurd (omega (int_laws, k, some_left, small)))
            ]
      ]

  -- An order for the stake that the walk adds meets, in the book that was walked, fills whose notional lands within half a stake's of the target.
  pub walk-lands :
      (c : ℤ) (st : Money) (worst : Option Odds) (rs : List ExchangeOrder) (o : ExchangeOrder)
      → All (λ (r : ExchangeOrder). pos 0 <ℤ r.odds) rs
      → c ≤ℤ target
      → let walk = walk_from target c st worst rs in
        walk.reached_target ≡ true
        → walk.stake ≡ st +ℤ unmatched_stake o
        → (w : Odds) × (walk.worst_odds ≡ some w)
          × Near (c +ℤ notional (match_loop o rs).trades) target w
  unfolding walk_from match_loop
  walk-lands c st worst [] o h le = λ reached sized. absurd (cc reached)
  walk-lands c st worst (r ∷ rs) o h le =
      let a = unmatched_stake r in
      let u = unmatched_stake o in
      let level = a *ℤ r.odds in
      elim (Bool-cases (leb_ℤ u (pos 0))) [
        | inl filled ↦ λ reached sized.
            let (w, is_w, near) =
              walk-still c st worst (r ∷ rs) h le reached
                (omega (int_laws, leb_ℤ→le u (pos 0) filled, parts sized)) in
            (
              w,
              is_w,
              rw (trades_filled o (r ∷ rs) (leb_ℤ→le u (pos 0) filled))
                  (omega (int_laws, near.0), omega (int_laws, near.1)),
            )
        | inr wants ↦ elim (Bool-cases (leb_ℤ a (pos 0))) [
          | inl empty ↦ rw (empty, wants) (walk-lands c st worst rs o h.1 le)
          | inr offers ↦
              let some_left = leb_ℤ→gt a (pos 0) offers in
              elim (Bool-cases (leb_ℤ target (c +ℤ level))) [
                | inl last ↦
                    let (near, low, high) =
                      quantize-Near (target -ℤ c) a r.odds (omega (int_laws, le)) h.0
                        (omega (int_laws, leb_ℤ→le target (c +ℤ level) last))
                        (omega (int_laws, some_left)) in
                    rw (offers, last, wants)
                      (λ reached sized.
                        let q = quantize (target -ℤ c) (pos_part r.odds) in
                        let all_of : q ≡ u = omega (int_laws, parts sized) in
                        let near' : Near (u *ℤ r.odds) (target -ℤ c) r.odds =
                          subst (λ x. Near (x *ℤ r.odds) (target -ℤ c) r.odds) all_of near in
                        let smaller : min_ℤ u a ≡ u =
                          min-left u a (omega (int_laws, high, parts all_of)) in
                        let used : unmatched_stake (fill_order u o) ≤ℤ pos 0 =
                          omega (int_laws, parts (unmatched-fill o u)) in
                        rw (smaller, trades_filled (fill_order u o) rs used)
                          (r.odds, refl, (omega (int_laws, near'.0), omega (int_laws, near'.1))))
                | inr more ↦
                    rw (offers, more, wants)
                      (λ reached sized.
                        let below : c +ℤ level ≤ℤ target =
                          omega (int_laws, leb_ℤ→gt target (c +ℤ level) more) in
                        let k = walk-grows (c +ℤ level) (st +ℤ a) (some r.odds) rs h.1 below in
                        let smaller : min_ℤ u a ≡ a =
                          min-right u a (omega (int_laws, k, parts sized)) in
                        let (w, is_w, near) =
                          walk-lands (c +ℤ level) (st +ℤ a) (some r.odds) rs (fill_order a o) h.1
                            below reached
                            (omega (int_laws, parts sized, parts (unmatched-fill o a))) in
                        rw smaller (w, is_w, (omega (int_laws, near.0), omega (int_laws, near.1))))
              ]
        ]
      ]
