-- ===== src/Bets/Complete.antt =====
-- What `settle_bets_for_match` leaves pending: nothing of a match that is over.
use quickpaybet.Prelude.{
  ℕ, ◌≡◌, refl, Bool, true, false, Option, none, some, List, [], ◌∷◌, Bool-cases, inl, inr,
}
use quickpaybet.Prelude.Table.{get_row}
use quickpaybet.Models.Money.{Column}
use quickpaybet.Models.Sports.{Match, MatchStatus, finished, cancelled, scheduled, live, Selection}
use quickpaybet.Models.Bets.{Bet, BetStatus, ParlayBet, ParlayLeg, won, lost, refunded, pending}
use quickpaybet.Models.Database.{Database}
use quickpaybet.Action.{ok, returns, ◌▸◌, gets}
use quickpaybet.Action.Triple.{
  Triple, Keeps, keeps_rules, bind-Triple, forget, when_done, Keeps-bind, Keeps-modify, Keeps-gets,
  Keeps-pure,
}
use quickpaybet.Bets.Money.{
  OnSlips, lock_wallet-Keeps, user_row-Keeps, post-Keeps, parlay_commission-Keeps,
  credit_cashback_for_loss-Keeps,
}
use quickpaybet.Bets.MatchSettle.{
  is_pending_on, pending_bet_ids, settle_by_status, settle_bets_for_match,
}
use quickpaybet.Bets.ParlaySettle.{
  result_of, mark_parlay, lose_parlay, pay_parlay, carry_out, settle_pending,
  settle_parlay_if_ready, settle_parlays, legs_by_status, legs_by_result, settle_some, settle_legs,
  settle_parlays_for_match, verdict,
}
use quickpaybet.Bets.Covered.{
  Any, Covered, bet_ids-Covered, settle_bets-Covered, refund_bets-Covered,
}

-- Cancelled, or finished with both scores.
abbrev pub is_over : MatchStatus → Option Selection → Bool
is_over scheduled result = false
is_over live result = false
is_over cancelled result = true
is_over finished none = false
is_over finished (some r) = true

module _ (m : Match) where
  module _ ⦃c : Column⦄ where
    -- Parlays leave the bets alone.
    abbrev None : Database → Type 0
    None = OnSlips (Covered m [])

    mark_parlay-Keeps : (p : ParlayBet) (status : BetStatus) → Keeps None (mark_parlay p status)
    unfolding mark_parlay
    mark_parlay-Keeps p status = Keeps-modify _ (λ s h. h)

    carry_out-Keeps : (p : ParlayBet) (v : BetStatus) → Keeps None (carry_out p v)
    unfolding lose_parlay pay_parlay
    carry_out-Keeps p pending = search keeps_rules
    carry_out-Keeps p lost = Keeps-bind _ _ (mark_parlay-Keeps p lost) λ _.
        Keeps-bind _ _ (user_row-Keeps (Covered m []) p.user) λ user.
          Keeps-bind _ _ (parlay_commission-Keeps (Covered m []) user p)
            (λ _. credit_cashback_for_loss-Keeps (Covered m []) user p.stake 1)
    carry_out-Keeps p refunded =
        Keeps-bind _ _ (lock_wallet-Keeps (Covered m []) p.user) λ w.
          Keeps-bind _ _ (post-Keeps (Covered m []) _ _ _ w) (λ _. mark_parlay-Keeps p refunded)
    carry_out-Keeps p won =
        Keeps-bind _ _ (lock_wallet-Keeps (Covered m []) p.user)
          λ w. Keeps-bind _ _ (post-Keeps (Covered m []) _ _ _ w) (λ _. mark_parlay-Keeps p won)

    settle_pending-Keeps : (p : ParlayBet) (b : Bool) → Keeps None (settle_pending p b)
    settle_pending-Keeps p true =
        Keeps-bind _ _ (Keeps-gets _) (λ legs. carry_out-Keeps p (verdict legs))
    settle_pending-Keeps p false = search keeps_rules

    settle_parlays-Keeps : (ks : List ℕ) → Keeps None (settle_parlays ks)
    unfolding settle_parlays settle_parlay_if_ready
    settle_parlays-Keeps [] = search keeps_rules
    settle_parlays-Keeps (k ∷ ks) =
        Keeps-bind _ _ (search (keeps_rules, settle_pending-Keeps) depth 10)
          (λ _. settle_parlays-Keeps ks)

    legs_by_status-Keeps : (status : MatchStatus) → Keeps None (legs_by_status m status)
    legs_by_status-Keeps scheduled = search keeps_rules
    legs_by_status-Keeps live = search keeps_rules
    legs_by_status-Keeps finished = by_result (result_of m)
      where
        by_result : (o : Option Selection) → Keeps None (legs_by_result m o)
        by_result none = search keeps_rules
        by_result (some r) = Keeps-bind _ _ (Keeps-modify _ (λ s h. h)) (λ _. Keeps-pure _)
    legs_by_status-Keeps cancelled = Keeps-bind _ _ (Keeps-modify _ (λ s h. h)) (λ _. Keeps-pure _)

    settle_some-Keeps : (legs : List ParlayLeg) → Keeps None (settle_some legs m)
    unfolding settle_legs
    settle_some-Keeps [] = search keeps_rules
    settle_some-Keeps (l ∷ ls) = legs_by_status-Keeps m.status

    settle_parlays_for_match-Keeps : Keeps None (settle_parlays_for_match m)
    unfolding settle_parlays_for_match
    settle_parlays_for_match-Keeps =
        search (keeps_rules, settle_some-Keeps, settle_parlays-Keeps) depth 10

    read_ids :
        (m' : Database → List ℕ)
        → ((s : Database) → Covered m (m' s) s.bets [])
        → Triple Any Any (gets m') (λ ks. OnSlips (Covered m ks))
    unfolding gets
    read_ids f h = record { run = λ s x. h s }

    over-None :
        (status : MatchStatus) (result : Option Selection)
        → is_over status result ≡ true
        → result_of m ≡ result
        → Triple Any Any (settle_by_status m status) (λ _. None)
    over-None scheduled result h e = cc
    over-None live result h e = cc
    over-None cancelled result h e =
        bind-Triple (read_ids (pending_bet_ids m) (λ s. bet_ids-Covered m s.bets)) λ ks.
          bind-Triple (refund_bets-Covered m ks)
            (λ _. forget (λ s x. tt) settle_parlays_for_match-Keeps)
    over-None finished none h e = cc
    over-None finished (some r) h e =
        bind-Triple
          (rw e (
            bind-Triple (read_ids (pending_bet_ids m) (λ s. bet_ids-Covered m s.bets))
              λ ks. settle_bets-Covered m ks r))
          (λ _. forget (λ s x. tt) settle_parlays_for_match-Keeps)

-- When settling a match that is cancelled, or finished with both scores, returns without an error, no bet on the match is pending any more.
pub settle_bets_for_match-completes :
    ⦃c : Column⦄ (m : Match) (s : Database)
    → is_over m.status (result_of m) ≡ true
    → returns (settle_bets_for_match m) s ≡ ok tt
    → (k : ℕ) (b : Bet) → get_row Bet.id k (s ▸ settle_bets_for_match m).bets ≡ some b
    → is_pending_on m b ≡ false
unfolding settle_bets_for_match
settle_bets_for_match-completes m s over done k b found =
    let none_left = when_done (over-None m m.status (result_of m) over refl) s tt done k b found in
    elim (Bool-cases (is_pending_on m b)) [ inl e ↦ cc (none_left e) | inr e ↦ e ]
