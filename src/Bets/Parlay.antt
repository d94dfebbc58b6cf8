-- ===== src/Bets/Parlay.antt =====
-- `place_parlay_bet`. Combined odds are kept as the exact fraction `n / d` of whole odds, `d` being a
-- power of one hundred.
use quickpaybet.Prelude.{
  ℕ, suc, ◌*◌, Bool, not, Option, some, List, [], ◌∷◌, ◌++◌, length, any, ◌==◌, ltb, map,
}
use quickpaybet.Prelude.Int.{ℤ, pos, ◌*ℤ◌, ltb_ℤ}
use quickpaybet.Prelude.Table.{get_row}
use quickpaybet.Models.Money.{Money, Odds, Column, store}
use quickpaybet.Models.Accounts.{User}
use quickpaybet.Models.Sports.{Match, Selection, is_open_for_betting}
use quickpaybet.Models.Bets.{BetStatus}
use quickpaybet.Action.{
  Action, Done, atomic, gets, modify, pure, or_raise, raise_if, match_not_found, betting_closed,
  too_few_selections, too_many_selections, invalid_selection, same_match_twice, odds_too_high,
  ◌>>=◌, ◌>>◌,
}
use quickpaybet.Bets.Limits.{check_stake, get_bet_odds}
use quickpaybet.Bets.Place.{charge_stake}

abbrev pub max_parlay_legs : ℕ
max_parlay_legs = 12

-- 999999.99
abbrev pub max_combined_odds : Odds
max_combined_odds = pos 99999999

-- One item of the request; a match id that is missing or zero is falsy, as the source tests it.
pub record Item : Type 0 where
  pub match_id : ℕ
  pub selection : Option Selection

pub record Leg : Type 0 where
  pub match_id : ℕ
  pub selection : Selection
  pub odds : Odds

-- The loop's variables: `validated_legs`, `seen_match_ids` (the legs' matches) and `combined_odds`.
pub record Slip : Type 0 where
  pub legs : List Leg
  pub n : ℤ
  pub d : ℕ

abbrev pub empty_slip : Slip
empty_slip = record { legs = []; n = pos 1; d = 1 }

abbrev pub has_match : ℕ → List Leg → Bool
has_match k legs = any (λ l. l.match_id == k) legs

abbrev pub is_too_high : Slip → Bool
is_too_high p = ltb_ℤ (max_combined_odds *ℤ pos p.d) (p.n *ℤ pos 100)

abbrev pub add_leg : Leg → Slip → Slip
add_leg l p = record { legs = p.legs ++ l ∷ []; n = p.n *ℤ l.odds; d = p.d * 100 }

-- One round of the loop.
unfoldable pub validate_item : User → Item → Slip → Action Slip
unfolding get_bet_odds
validate_item user item p = do
  raise_if (item.match_id == 0) invalid_selection
  selection ← or_raise item.selection invalid_selection
  m ← or_raise (← gets (λ s. get_row Match.id item.match_id s.matches)) match_not_found
  raise_if (has_match m.id p.legs) same_match_twice
  raise_if (not (is_open_for_betting m.status)) betting_closed
  odds ← get_bet_odds m (some selection) user
  let p' = add_leg (record { match_id = m.id; selection = selection; odds = odds }) p
  raise_if (is_too_high p') odds_too_high
  pure p'

unfoldable pub validate_items : User → List Item → Slip → Action Slip
validate_items user [] p = pure p
validate_items user (item ∷ items) p = do
  p' ← validate_item user item p
  validate_items user items p'

unfoldable pub create_parlay : ⦃c : Column⦄ → ℕ → Money → Slip → Action Done
create_parlay user stake p = modify λ s. record s {
  parlays =
      record {
        id = suc (length s.parlays);
        user = user;
        stake = stake;
        total_odds = store (p.n *ℤ pos 100) p.d;
        potential_payout = store (stake *ℤ p.n) p.d;
        status = BetStatus.pending;
      }
      ∷ s.parlays;
  legs =
      s.legs
      ++ map
          (λ (l : Leg). record {
            parlay = suc (length s.parlays);
            match_id = l.match_id;
            selection = l.selection;
            odds = l.odds;
            outcome = BetStatus.pending;
          })
          p.legs;
}

unfoldable pub place_parlay_bet : ⦃c : Column⦄ → User → Money → List Item → Action Done
unfolding check_stake charge_stake create_parlay
place_parlay_bet user stake selections = do
  check_stake user stake
  raise_if (ltb (length selections) 2) too_few_selections
  raise_if (ltb max_parlay_legs (length selections)) too_many_selections
  slip ← validate_items user selections empty_slip
  atomic do charge_stake user.id stake; create_parlay user.id stake slip
