-- ===== src/Bets/Verdict.antt =====
-- The decision of `_settle_parlay_if_ready`, beside an independent description: an order of outcomes.
use quickpaybet.Prelude.{
  ◌≡◌, refl, Bool, true, false, ◌||◌, List, [], ◌∷◌, any, every, if◌then◌else◌, Bool-cases, inl,
  inr, arith,
}
use quickpaybet.Models.Bets.{
  ParlayLeg, BetStatus, pending, won, lost, refunded, is_pending, is_won, is_lost, is_refunded,
}
use quickpaybet.Bets.ParlaySettle.{verdict}

-- An undecided leg outweighs a lost one, that a refunded one, and that a won one.
abbrev pub worse : BetStatus → BetStatus → BetStatus
worse pending y = pending
worse lost pending = pending
worse lost lost = lost
worse lost refunded = lost
worse lost won = lost
worse refunded pending = pending
worse refunded lost = lost
worse refunded refunded = refunded
worse refunded won = refunded
worse won y = y

abbrev pub worst : List ParlayLeg → BetStatus
worst [] = won
worst (l ∷ ls) = worse l.outcome (worst ls)

-- The three tests of the source, in its order, with `won` for what is left.
abbrev tests : List ParlayLeg → BetStatus
tests legs =
    if any (λ l. is_pending l.outcome) legs
    then pending
    else if any (λ l. is_lost l.outcome) legs
    then lost
    else if any (λ l. is_refunded l.outcome) legs
    then refunded
    else won

step :
    (o : BetStatus) (p l r : Bool)
    → worse o (if p then pending else if l then lost else if r then refunded else won) ≡ (
        if is_pending o || p
        then pending
        else if is_lost o || l
        then lost
        else if is_refunded o || r
        then refunded
        else won)
step o p l r = ground arith

tests-worst : (legs : List ParlayLeg) → worst legs ≡ tests legs
tests-worst [] = refl
tests-worst (l ∷ ls) = rw (tests-worst ls) (step l.outcome _ _ _)

-- With no leg undecided, lost or refunded, all are won: the last branch is never missed.
rest_won :
    (legs : List ParlayLeg)
    → any (λ l. is_pending l.outcome) legs ≡ false
    → any (λ l. is_lost l.outcome) legs ≡ false
    → any (λ l. is_refunded l.outcome) legs ≡ false
    → every (λ l. is_won l.outcome) legs ≡ true
rest_won [] p l r = refl
rest_won (x ∷ ls) p l r = ground (arith, rest_won ls)

-- A parlay with at least one leg is decided by its worst leg: it waits while one is undecided, else is lost if one is lost, else refunded if one is refunded, else won.
pub verdict-worst : (l : ParlayLeg) (ls : List ParlayLeg) → verdict (l ∷ ls) ≡ worst (l ∷ ls)
unfolding verdict
verdict-worst l ls =
    let legs = l ∷ ls in
    elim (Bool-cases (any (λ x. is_pending x.outcome) legs)) [
      | inl p ↦ rw (tests-worst legs, p) refl
      | inr p ↦ elim (Bool-cases (any (λ x. is_lost x.outcome) legs)) [
        | inl q ↦ rw (tests-worst legs, p, q) refl
        | inr q ↦ elim (Bool-cases (any (λ x. is_refunded x.outcome) legs)) [
          | inl r ↦ rw (tests-worst legs, p, q, r) refl
          | inr r ↦ rw (tests-worst legs, p, q, r, rest_won legs p q r) refl
        ]
      ]
    ]
