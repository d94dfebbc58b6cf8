-- ===== src/Bets/Placed.antt =====
-- The rows of `place_parlay_bet`.
use quickpaybet.Prelude.{
  ℕ, suc, ◌+◌, ◌≤◌, ◌≡◌, refl, false, List, ◌∷◌, ◌++◌, length, map, arith, ltb, Bool-cases, inl,
  inr,
}
use quickpaybet.Prelude.Int.{pos, ◌*ℤ◌, leb_ℤ}
use quickpaybet.Models.Money.{Money, Column, store}
use quickpaybet.Models.Accounts.{User}
use quickpaybet.Models.Wallets.{Wallet}
use quickpaybet.Models.Bets.{ParlayBet, ParlayLeg, BetStatus}
use quickpaybet.Models.Database.{Database}
use quickpaybet.Action.{ok, returns, ◌▸◌, atomic, ◌>>◌}
use quickpaybet.Action.Triple.{
  Triple, Keeps, keeps_rules, Keeps-modify, bind-Triple, before, forget, atomic-Triple,
  modify-Triple, raise_if-Triple, both, given, when_done,
}
use quickpaybet.Wallet.Ledger.{lock_wallet, save_wallet, record_transaction}
use quickpaybet.Cashback.Wager.{record_wager}
use quickpaybet.Bets.Place.{charge_stake}
use quickpaybet.Bets.Reads.{check_stake-Keeps, validate_items-Keeps}
use quickpaybet.Bets.Parlay.{
  Item, Leg, Slip, empty_slip, create_parlay, place_parlay_bet, max_parlay_legs,
}
use quickpaybet.Bets.Slips.{IsSlip, IsCapped, validate_items-Triple}

-- The rows of a placed parlay.
abbrev pub parlay_of : ⦃c : Column⦄ → ℕ → ℕ → Money → Slip → ParlayBet
parlay_of k user stake p = record {
  id = k;
  user = user;
  stake = stake;
  total_odds = store (p.n *ℤ pos 100) p.d;
  potential_payout = store (stake *ℤ p.n) p.d;
  status = BetStatus.pending;
}

abbrev pub legs_for : ℕ → List Leg → List ParlayLeg
legs_for k ls =
    map
      (λ (l : Leg). record {
        parlay = k;
        match_id = l.match_id;
        selection = l.selection;
        odds = l.odds;
        outcome = BetStatus.pending;
      })
      ls

-- The tables of `s` with one parlay more: between two and twelve legs, no match twice, odds in their cap.
pub record Placed ⦃c : Column⦄ (s : Database) (user : ℕ) (stake : Money) (t : Database)
    : Type 0 where
  pub slip : Slip
  pub in_order : IsSlip slip
  pub at_least : 2 ≤ length slip.legs
  pub at_most : length slip.legs ≤ 12
  pub parlay_row : t.parlays ≡ parlay_of (suc (length s.parlays)) user stake slip ∷ s.parlays
  pub leg_rows : t.legs ≡ s.legs ++ legs_for (suc (length s.parlays)) slip.legs

abbrev Any : Database → Type 0
Any s = Unit

-- The parlays and legs of `s`.
abbrev Tables : Database → Database → Type 0
Tables s t = (t.parlays ≡ s.parlays) × (t.legs ≡ s.legs)

module _ {I : Database → Type 0} where
  lock_wallet-Keeps : (u : ℕ) → Keeps I (lock_wallet u)
  unfolding lock_wallet
  lock_wallet-Keeps u = search keeps_rules

module _ (s : Database) where
  save_wallet-Keeps : (w : Wallet) → Keeps (Tables s) (save_wallet w)
  unfolding save_wallet
  save_wallet-Keeps w = Keeps-modify _ (λ t h. h)

  record_transaction-Keeps :
      (w : Wallet) (k : _) (a : Money) → Keeps (Tables s) (record_transaction w k a)
  unfolding record_transaction
  record_transaction-Keeps w k a = Keeps-modify _ (λ t h. h)

  record_wager-Keeps : (w : Wallet) (a : Money) → Keeps (Tables s) (record_wager w a)
  unfolding record_wager
  record_wager-Keeps w a = record {
    run = λ t h. elim (Bool-cases (leb_ℤ a (pos 0))) [ inl e ↦ rw e h | inr e ↦ rw e h ];
  }

  charge_stake-Keeps : (u : ℕ) (a : Money) → Keeps (Tables s) (charge_stake u a)
  unfolding charge_stake
  charge_stake-Keeps u a =
      search
        (
          keeps_rules, lock_wallet-Keeps, save_wallet-Keeps, record_transaction-Keeps,
          record_wager-Keeps,
        )
        depth 10

abbrev IsLong : Slip → Type 0
IsLong p = (2 ≤ length p.legs) × (length p.legs ≤ 12)

module _ ⦃c : Column⦄ (s : Database) where
  create_parlay-Placed :
      (u : ℕ) (stake : Money) (p : Slip)
      → IsSlip p
      → IsLong p
      → Triple Any (Tables s) (create_parlay u stake p) (λ _. Placed s u stake)
  unfolding create_parlay
  create_parlay-Placed u stake p h n = modify-Triple _ λ t e. record {
    slip = p;
    in_order = h;
    at_least = n.0;
    at_most = n.1;
    parlay_row = rw e.0 refl;
    leg_rows = rw (e.0, e.1) refl;
  }

  charge_and_create-Placed :
      (u : ℕ) (stake : Money) (p : Slip)
      → IsSlip p
      → IsLong p
      → Triple Any
          (λ t. t ≡ s)
          (atomic do charge_stake u stake; create_parlay u stake p)
          (λ _. Placed s u stake)
  charge_and_create-Placed u stake p h n =
      atomic-Triple (λ t e. tt)
        (bind-Triple
          (before (λ t e. rw e (refl, refl)) (forget (λ t k. tt) (charge_stake-Keeps s u stake)))
          (λ _. create_parlay-Placed u stake p h n))

  length-IsLong :
      (n : ℕ) (p : Slip)
      → ltb n 2 ≡ false
      → ltb max_parlay_legs n ≡ false
      → length p.legs ≡ n + 0
      → IsLong p
  length-IsLong n p lo hi e = (ground arith, ground arith)

  empty-IsCapped : IsCapped empty_slip
  unfolding ◌*ℤ◌
  empty-IsCapped = omega arith

  place_parlay_bet-Triple :
      (user : User) (stake : Money) (items : List Item)
      → Triple Any (λ t. t ≡ s) (place_parlay_bet user stake items) (λ _. Placed s user.id stake)
  unfolding place_parlay_bet
  place_parlay_bet-Triple user stake items =
      bind-Triple (forget (λ t e. tt) (check_stake-Keeps user stake)) λ _.
        bind-Triple (raise_if-Triple _ _ (λ t e. tt)) λ _. given λ lo.
          bind-Triple (raise_if-Triple _ _ (λ t e. tt)) λ _. given λ hi.
            bind-Triple
              (before (λ t e. (e, (tt, empty-IsCapped)))
                (both (forget (λ t e. tt) (validate_items-Keeps user items empty_slip))
                  (validate_items-Triple user items empty_slip)))
              λ p. given λ h.
                charge_and_create-Placed user.id stake p h.0
                  (length-IsLong (length items) p lo hi h.1)

-- When a parlay is placed, the tables gain exactly one pending parlay and its legs: between two and twelve of them, no match twice, and combined odds of at most 999999.99.
pub place_parlay_bet-Placed :
    ⦃c : Column⦄ (user : User) (stake : Money) (items : List Item) (s : Database)
    → returns (place_parlay_bet user stake items) s ≡ ok tt
    → Placed s user.id stake (s ▸ place_parlay_bet user stake items)
place_parlay_bet-Placed user stake items s e =
    when_done (place_parlay_bet-Triple s user stake items) s refl e
