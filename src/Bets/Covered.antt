-- ===== src/Bets/Covered.antt =====
-- The loops of `settle_bets_for_match`: the bets of the match that are still pending are those to come.
use quickpaybet.Prelude.{
  ℕ, ◌≡◌, refl, sym, ◌∙◌, Bool, true, false, ◌==◌, some, List, [], ◌∷◌, any, select, arith,
  Bool-cases, inl, inr,
}
use quickpaybet.Prelude.Int.{◌*ℤ◌}
use quickpaybet.Prelude.Table.{get_row, put_row, get-put_at, get-put_ne, key-get}
use mathlib.Core.Path.{subst}
use native.Mathlib.Decide.{ℕ_discrete as dec_eq}
use quickpaybet.Models.Money.{Column}
use quickpaybet.Models.Sports.{Match, Selection, same_selection}
use quickpaybet.Models.Wallets.{TxnType}
use quickpaybet.Models.Bets.{Bet, BetStatus, ParlayBet, is_pending, won, lost, refunded}
use quickpaybet.Models.Database.{Database}
use quickpaybet.Action.{atomic, ◌>>=◌}
use quickpaybet.Action.Triple.{
  Triple, bind-Triple, returns-Triple, gets-Triple, or_raise-Triple, atomic-Triple, modify-Triple,
  after, forget, Keeps-bind,
}
use quickpaybet.Bets.Money.{
  OnSlips, lock_wallet-Keeps, user_row-Keeps, post-Keeps, commission-Keeps,
  credit_cashback_for_loss-Keeps,
}
use quickpaybet.Wallet.Ledger.{lock_wallet, post}
use quickpaybet.Bets.Settle.{mark_bet, win_bet, lose_bet, settle_bet, refund_bet}
use quickpaybet.Bets.MatchSettle.{is_pending_on, bet_ids, lock_bet, settle_bets, refund_bets}

abbrev pub has : ℕ → List ℕ → Bool
has j ks = any (λ i. i == j) ks

abbrev pub Any : Database → Type 0
Any s = Unit

module _ (m : Match) where
  -- A pending bet on the match is one of these.
  abbrev pub Covered : List ℕ → List Bet → List ParlayBet → Type 0
  Covered ks bets parlays =
      (j : ℕ) (b : Bet)
      → get_row Bet.id j bets ≡ some b
      → is_pending_on m b ≡ true
      → has j ks ≡ true

  -- Before: the bet `k` is read as `bet`.
  abbrev pub Holding : ℕ → List ℕ → Bet → List Bet → List ParlayBet → Type 0
  Holding k ks bet bets parlays = Covered (k ∷ ks) bets parlays × (get_row Bet.id k bets ≡ some bet)

  pub bet_ids-Covered :
      (bets : List Bet) → Covered (bet_ids (select (is_pending_on m) bets)) bets []
  unfolding get_row
  bet_ids-Covered [] j b found waits = cc
  bet_ids-Covered (x ∷ xs) j b found waits = ground (arith, bet_ids-Covered xs j b, found, waits)

  mark_bet-Covered :
      (k : ℕ) (ks : List ℕ) (bet : Bet) (status : BetStatus)
      → is_pending status ≡ false
      → Triple Any (OnSlips (Holding k ks bet)) (mark_bet bet status) (λ _. OnSlips (Covered ks))
  unfolding mark_bet
  mark_bet-Covered k ks bet status over = modify-Triple _ λ s (covered, found) j b row waits.
      let same = key-get Bet.id k bet s.bets found in
      let marked = record bet { status = status } in
      elim (dec_eq k j) [
        | yes e ↦
            let own : some b ≡ some marked =
              sym row
              ∙ subst (λ i. get_row Bet.id i (put_row Bet.id marked s.bets) ≡ some marked) e
                  (get-put_at Bet.id k bet marked s.bets found refl) in
            let is_marked : b ≡ marked = cc own in
            let done : is_pending_on m marked ≡ true =
              subst (λ x. is_pending_on m x ≡ true) is_marked waits in
            ground (arith, over, done)
        | no e ↦
            let row' =
              sym (get-put_ne Bet.id j marked s.bets (λ (q : bet.id ≡ j). e (sym same ∙ q)))
              ∙ row in
            ground (arith, covered j b row' waits, e)
      ]

  -- A bet that is not pending needs nothing.
  settled_before :
      (k : ℕ) (ks : List ℕ) (bet : Bet) (s : Database)
      → is_pending bet.status ≡ false
      → OnSlips (Holding k ks bet) s
      → OnSlips (Covered ks) s
  settled_before k ks bet s over (covered, found) j b row waits = elim (dec_eq k j) [
    | yes e ↦
        let own : some b ≡ some bet =
          sym row ∙ subst (λ i. get_row Bet.id i s.bets ≡ some bet) e found in
        let is_bet : b ≡ bet = cc own in
        let done : is_pending_on m bet ≡ true =
          subst (λ x. is_pending_on m x ≡ true) is_bet waits in
        ground (arith, over, done)
    | no e ↦ ground (arith, covered j b row waits, e)
  ]

  module _ ⦃c : Column⦄ (k : ℕ) (ks : List ℕ) (bet : Bet) where
    win_bet-Covered :
        Triple Any (OnSlips (Holding k ks bet)) (win_bet bet) (λ _. OnSlips (Covered ks))
    unfolding win_bet
    win_bet-Covered =
        let F = Holding k ks bet in
        bind-Triple (forget (λ s h. tt) (lock_wallet-Keeps F bet.user)) λ w.
          bind-Triple
            (forget (λ s h. tt) (post-Keeps F TxnType.bet_won (bet.stake *ℤ bet.odds) 100 w))
            (λ _. mark_bet-Covered k ks bet won refl)

    lose_bet-Covered :
        Triple Any (OnSlips (Holding k ks bet)) (lose_bet bet) (λ _. OnSlips (Covered ks))
    unfolding lose_bet
    lose_bet-Covered =
        let F = Covered ks in
        bind-Triple (forget (λ s h. tt) (lock_wallet-Keeps (Holding k ks bet) bet.user)) λ w.
          bind-Triple (mark_bet-Covered k ks bet lost refl) λ _.
            forget (λ s h. tt)
              (Keeps-bind _ _ (user_row-Keeps F bet.user) λ user.
                Keeps-bind _ _ (commission-Keeps F user bet)
                  λ _. credit_cashback_for_loss-Keeps F user bet.stake 1)

    refund-Covered :
        Triple Any
          (OnSlips (Holding k ks bet))
          (atomic (
            lock_wallet bet.user >>= λ w.
            post TxnType.bet_refund bet.stake 1 w >>= λ _. mark_bet bet refunded))
          (λ _. OnSlips (Covered ks))
    refund-Covered =
        let F = Holding k ks bet in
        atomic-Triple (λ s h. tt)
          (bind-Triple (forget (λ s h. tt) (lock_wallet-Keeps F bet.user)) λ w.
            bind-Triple (forget (λ s h. tt) (post-Keeps F TxnType.bet_refund bet.stake 1 w))
              (λ _. mark_bet-Covered k ks bet refunded refl))

    settle_bet-Covered :
        (result : Selection)
        → Triple Any
            (OnSlips (Holding k ks bet))
            (settle_bet bet result)
            (λ _. OnSlips (Covered ks))
    unfolding settle_bet
    settle_bet-Covered result = elim (Bool-cases (is_pending bet.status)) [
      | inl e ↦ rw e (elim (Bool-cases (same_selection bet.selection result)) [
        | inl hit ↦ rw hit win_bet-Covered
        | inr miss ↦ rw miss lose_bet-Covered
      ])
      | inr e ↦ rw e (returns-Triple tt (λ s h. settled_before k ks bet s e h))
    ]

    refund_bet-Covered :
        Triple Any (OnSlips (Holding k ks bet)) (refund_bet bet) (λ _. OnSlips (Covered ks))
    unfolding refund_bet
    refund_bet-Covered = elim (Bool-cases (is_pending bet.status)) [
      | inl e ↦ rw e refund-Covered
      | inr e ↦ rw e (returns-Triple tt (λ s h. settled_before k ks bet s e h))
    ]

  lock_bet-Holding :
      (k : ℕ) (ks : List ℕ)
      → Triple Any (OnSlips (Covered (k ∷ ks))) (lock_bet k) (λ bet. OnSlips (Holding k ks bet))
  unfolding lock_bet
  lock_bet-Holding k ks =
      bind-Triple (gets-Triple (λ s. get_row Bet.id k s.bets))
        λ o. after (λ bet s h. (h.0.0, h.0.1 ∙ h.1)) (or_raise-Triple o _ (λ s h. tt))

  module _ ⦃c : Column⦄ where
    pub settle_bets-Covered :
        (ks : List ℕ) (result : Selection)
        → Triple Any (OnSlips (Covered ks)) (settle_bets ks result) (λ _. OnSlips (Covered []))
    unfolding settle_bets
    settle_bets-Covered [] result = returns-Triple tt (λ s h. h)
    settle_bets-Covered (k ∷ ks) result =
        bind-Triple
          (atomic-Triple (λ s h. tt)
            (bind-Triple (lock_bet-Holding k ks) λ bet. settle_bet-Covered k ks bet result))
          λ _. settle_bets-Covered ks result

    pub refund_bets-Covered :
        (ks : List ℕ)
        → Triple Any (OnSlips (Covered ks)) (refund_bets ks) (λ _. OnSlips (Covered []))
    unfolding refund_bets
    refund_bets-Covered [] = returns-Triple tt (λ s h. h)
    refund_bets-Covered (k ∷ ks) =
        bind-Triple
          (atomic-Triple (λ s h. tt)
            (bind-Triple (lock_bet-Holding k ks) λ bet. refund_bet-Covered k ks bet))
          λ _. refund_bets-Covered ks
