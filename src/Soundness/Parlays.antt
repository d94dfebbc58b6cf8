-- ===== src/Soundness/Parlays.antt =====
-- The invariant for placing and settling parlays, and for settling a match.
use quickpaybet.Prelude.{ℕ, Bool, true, false, Option, none, some, List, [], ◌∷◌}
use quickpaybet.Models.Money.{Money, Column}
use quickpaybet.Models.Accounts.{User}
use quickpaybet.Models.Sports.{Match, MatchStatus, scheduled, live, finished, cancelled, Selection}
use quickpaybet.Models.Wallets.{TxnType}
use quickpaybet.Models.Bets.{ParlayBet, ParlayLeg, BetStatus}
use quickpaybet.Action.{modify}
use quickpaybet.Action.Triple.{
  Keeps, keeps_rules, bind-Triple, before, Keeps-bind, Keeps-modify, Keeps-pure, Keeps-gets,
  Keeps-raise_if, Keeps-or_raise,
}
use quickpaybet.Bets.Parlay.{
  Item, Slip, validate_item, validate_items, create_parlay, place_parlay_bet,
}
use quickpaybet.Bets.ParlaySettle.{
  mark_parlay, lose_parlay, pay_parlay, carry_out, settle_pending, settle_parlay_if_ready,
  settle_legs, legs_by_result, legs_by_status, settle_some, settle_parlays,
  settle_parlays_for_match, result_of, verdict, mark_legs,
}
use quickpaybet.Bets.MatchSettle.{
  lock_bet, refund_bets, settle_bets, settle_singles, settle_by_status, settle_bets_for_match,
}
use quickpaybet.Soundness.Invariant.{Sound}
use quickpaybet.Soundness.Statements.{lock-Triple, post_exact-Triple}
use quickpaybet.Soundness.Wagers.{charge_stake-Triple}
use quickpaybet.Soundness.Services.{
  check_stake-Sound, get_bet_odds-Sound, credit_cashback_for_loss-Sound,
}
use quickpaybet.Soundness.Settlement.{
  user_row-Sound, parlay_commission-Sound, settle_bet-Sound, refund_bet-Sound,
}

validate_item-Sound :
    (user : User) (item : Item) (p : Slip) → Keeps Sound (validate_item user item p)
unfolding validate_item
validate_item-Sound user item p = Keeps-bind _ _ (Keeps-raise_if _ _) λ _.
    Keeps-bind _ _ (Keeps-or_raise _ _) λ selection. Keeps-bind _ _ (Keeps-gets _) λ found.
      Keeps-bind _ _ (Keeps-or_raise _ _) λ m. Keeps-bind _ _ (Keeps-raise_if _ _) λ _.
        Keeps-bind _ _ (Keeps-raise_if _ _) λ _.
          Keeps-bind _ _ (get_bet_odds-Sound m (some selection) user)
            λ odds. Keeps-bind _ _ (Keeps-raise_if _ _) (λ _. Keeps-pure _)

validate_items-Sound :
    (user : User) (items : List Item) (p : Slip) → Keeps Sound (validate_items user items p)
unfolding validate_items
validate_items-Sound user [] p = Keeps-pure p
validate_items-Sound user (item ∷ items) p =
    Keeps-bind _ _ (validate_item-Sound user item p) (λ p'. validate_items-Sound user items p')

mark_parlay-Sound :
    (parlay : ParlayBet) (status : BetStatus) → Keeps Sound (mark_parlay parlay status)
unfolding mark_parlay
mark_parlay-Sound parlay status = Keeps-modify _ (λ s h. h)

lock_bet-Sound : (k : ℕ) → Keeps Sound (lock_bet k)
unfolding lock_bet
lock_bet-Sound k = search keeps_rules

mark_legs-Sound : (m : Match) (f : ParlayLeg → BetStatus) → Keeps Sound (modify (mark_legs m f))
mark_legs-Sound m f = Keeps-modify _ (λ s h. h)

module _ ⦃c : Column⦄ where
  create_parlay-Sound : (u : ℕ) (stake : Money) (p : Slip) → Keeps Sound (create_parlay u stake p)
  unfolding create_parlay
  create_parlay-Sound u stake p = Keeps-modify _ (λ s h. h)

  -- A parlay, placed or refused, keeps the invariant.
  pub place_parlay_bet-Sound :
      (user : User) (stake : Money) (items : List Item)
      → Keeps Sound (place_parlay_bet user stake items)
  unfolding place_parlay_bet
  place_parlay_bet-Sound user stake items =
      search
        (
          keeps_rules, check_stake-Sound, validate_items-Sound, charge_stake-Triple,
          create_parlay-Sound,
        )
        depth 12

  lose_parlay-Sound : (parlay : ParlayBet) → Keeps Sound (lose_parlay parlay)
  unfolding lose_parlay
  lose_parlay-Sound parlay =
      search
        (
          keeps_rules, mark_parlay-Sound, user_row-Sound, parlay_commission-Sound,
          credit_cashback_for_loss-Sound,
        )
        depth 8

  pay_parlay-Sound :
      (parlay : ParlayBet) (kind : TxnType) (amount : Money) (status : BetStatus)
      → Keeps Sound (pay_parlay parlay kind amount status)
  unfolding pay_parlay
  pay_parlay-Sound parlay kind amount status = bind-Triple (lock-Triple parlay.user) (λ w.
      bind-Triple (before (λ s h. h.0) (post_exact-Triple kind amount w))
        (λ _. mark_parlay-Sound parlay status))

  carry_out-Sound : (parlay : ParlayBet) (v : BetStatus) → Keeps Sound (carry_out parlay v)
  carry_out-Sound parlay BetStatus.pending = Keeps-pure tt
  carry_out-Sound parlay BetStatus.lost = lose_parlay-Sound parlay
  carry_out-Sound parlay BetStatus.refunded = pay_parlay-Sound parlay _ _ _
  carry_out-Sound parlay BetStatus.won = pay_parlay-Sound parlay _ _ _

  settle_pending-Sound : (parlay : ParlayBet) (b : Bool) → Keeps Sound (settle_pending parlay b)
  settle_pending-Sound parlay true =
      Keeps-bind _ _ (Keeps-gets _) (λ legs. carry_out-Sound parlay (verdict legs))
  settle_pending-Sound parlay false = Keeps-pure tt

  pub settle_parlay_if_ready-Sound : (k : ℕ) → Keeps Sound (settle_parlay_if_ready k)
  unfolding settle_parlay_if_ready
  settle_parlay_if_ready-Sound k = search (keeps_rules, settle_pending-Sound)

  settle_parlays-Sound : (ks : List ℕ) → Keeps Sound (settle_parlays ks)
  unfolding settle_parlays
  settle_parlays-Sound [] = Keeps-pure tt
  settle_parlays-Sound (k ∷ ks) =
      Keeps-bind _ _ (settle_parlay_if_ready-Sound k) (λ _. settle_parlays-Sound ks)

  by_result-Sound : (m : Match) (o : Option Selection) → Keeps Sound (legs_by_result m o)
  by_result-Sound m none = Keeps-pure false
  by_result-Sound m (some r) = Keeps-bind _ _ (mark_legs-Sound m _) (λ _. Keeps-pure true)

  by_status-Sound : (m : Match) (st : MatchStatus) → Keeps Sound (legs_by_status m st)
  by_status-Sound m scheduled = Keeps-pure true
  by_status-Sound m live = Keeps-pure true
  by_status-Sound m finished = by_result-Sound m (result_of m)
  by_status-Sound m cancelled = Keeps-bind _ _ (mark_legs-Sound m _) (λ _. Keeps-pure true)

  settle_some-Sound : (legs : List ParlayLeg) (m : Match) → Keeps Sound (settle_some legs m)
  unfolding settle_legs
  settle_some-Sound [] m = Keeps-pure false
  settle_some-Sound (l ∷ legs) m = by_status-Sound m m.status

  settle_parlays_for_match-Sound : (m : Match) → Keeps Sound (settle_parlays_for_match m)
  unfolding settle_parlays_for_match
  settle_parlays_for_match-Sound m =
      search (keeps_rules, settle_some-Sound, settle_parlays-Sound) depth 8

  refund_bets-Sound : (ks : List ℕ) → Keeps Sound (refund_bets ks)
  unfolding refund_bets
  refund_bets-Sound [] = Keeps-pure tt
  refund_bets-Sound (k ∷ ks) =
      Keeps-bind _ _ (search (keeps_rules, lock_bet-Sound, refund_bet-Sound))
        (λ _. refund_bets-Sound ks)

  settle_bets-Sound : (ks : List ℕ) (result : Selection) → Keeps Sound (settle_bets ks result)
  unfolding settle_bets
  settle_bets-Sound [] result = Keeps-pure tt
  settle_bets-Sound (k ∷ ks) result =
      Keeps-bind _ _ (search (keeps_rules, lock_bet-Sound, settle_bet-Sound))
        (λ _. settle_bets-Sound ks result)

  settle_singles-Sound : (m : Match) (o : Option Selection) → Keeps Sound (settle_singles m o)
  settle_singles-Sound m none = Keeps-pure tt
  settle_singles-Sound m (some r) = search (keeps_rules, settle_bets-Sound)

  match_by_status-Sound : (m : Match) (st : MatchStatus) → Keeps Sound (settle_by_status m st)
  match_by_status-Sound m scheduled = Keeps-pure tt
  match_by_status-Sound m live = Keeps-pure tt
  match_by_status-Sound m finished =
      search (keeps_rules, settle_singles-Sound, settle_parlays_for_match-Sound)
  match_by_status-Sound m cancelled =
      search (keeps_rules, refund_bets-Sound, settle_parlays_for_match-Sound) depth 8

  -- Settling or refunding every bet and parlay leg of a match keeps the invariant.
  pub settle_bets_for_match-Sound : (m : Match) → Keeps Sound (settle_bets_for_match m)
  unfolding settle_bets_for_match
  settle_bets_for_match-Sound m = match_by_status-Sound m m.status
