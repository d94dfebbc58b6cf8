-- ===== src/Bets/Slips.antt =====
-- What the loop of `place_parlay_bet` lets through, as a predicate on its variables.
use quickpaybet.Prelude.{
  ℕ, suc, ◌+◌, ◌≡◌, refl, ap, false, some, List, [], ◌∷◌, ◌++◌, length, arith, ◌==◌,
}
use quickpaybet.Prelude.Int.{pos, ◌*ℤ◌, ◌≤ℤ◌, ltb_ℤ→ge}
use quickpaybet.Models.Accounts.{User}
use quickpaybet.Models.Database.{Database}
use quickpaybet.Action.Triple.{
  Triple, bind-Triple, before, after, returns-Triple, gets-Triple, or_raise-Triple, raise_if-Triple,
  forget,
}
use quickpaybet.Bets.Reads.{get_bet_odds-Keeps}
use quickpaybet.Bets.Parlay.{
  Item, Leg, Slip, has_match, is_too_high, add_leg, validate_item, validate_items,
  max_combined_odds,
}

-- No match twice.
abbrev pub IsDistinct : List Leg → Type 0
IsDistinct [] = Unit
IsDistinct (l ∷ ls) = (has_match l.match_id ls ≡ false) × IsDistinct ls

-- The slip's odds are within the cap, so they fit `ParlayBet.total_odds`.
abbrev pub IsCapped : Slip → Type 0
IsCapped p = p.n *ℤ pos 100 ≤ℤ max_combined_odds *ℤ pos p.d

abbrev pub IsSlip : Slip → Type 0
IsSlip p = IsDistinct p.legs × IsCapped p

is_too_high-IsCapped : (p : Slip) → is_too_high p ≡ false → IsCapped p
is_too_high-IsCapped p h = ltb_ℤ→ge (max_combined_odds *ℤ pos p.d) (p.n *ℤ pos 100) h

has_match-append :
    (k : ℕ) (l : Leg) (ls : List Leg)
    → has_match k ls ≡ false
    → (l.match_id == k) ≡ false
    → has_match k (ls ++ l ∷ []) ≡ false
has_match-append k l [] h e = ground arith
has_match-append k l (x ∷ ls) h e = ground (arith, has_match-append k l ls)

IsDistinct-append :
    (l : Leg) (ls : List Leg)
    → IsDistinct ls
    → has_match l.match_id ls ≡ false
    → IsDistinct (ls ++ l ∷ [])
IsDistinct-append l [] h e = (refl, tt)
IsDistinct-append l (x ∷ ls) h e =
    (has_match-append x.match_id l ls h.0 (ground arith), IsDistinct-append l ls h.1 (ground arith))

add_leg-length : (l : Leg) (ls : List Leg) → length (ls ++ l ∷ []) ≡ suc (length ls)
add_leg-length l [] = refl
add_leg-length l (x ∷ ls) = ap suc (add_leg-length l ls)

-- A leg on a new match, within the cap.
add_leg-IsSlip :
    (l : Leg) (p : Slip)
    → IsSlip p
    → has_match l.match_id p.legs ≡ false
    → is_too_high (add_leg l p) ≡ false
    → IsSlip (add_leg l p)
add_leg-IsSlip l p h e k = (IsDistinct-append l p.legs h.0 e, is_too_high-IsCapped (add_leg l p) k)

abbrev Any : Database → Type 0
Any s = Unit

-- One round lets a leg through only onto a slip that stays in order.
validate_item-Triple :
    (user : User) (item : Item) (p : Slip)
    → Triple Any
        (λ s. IsSlip p)
        (validate_item user item p)
        (λ p' s. IsSlip p' × (length p'.legs ≡ suc (length p.legs)))
unfolding validate_item
validate_item-Triple user item p = bind-Triple (raise_if-Triple _ _ (λ s h. tt)) λ _.
    bind-Triple (before (λ s h. h.0) (or_raise-Triple _ _ (λ s h. tt))) λ selection.
      bind-Triple (before (λ s h. h.0) (gets-Triple _)) λ found.
        bind-Triple (before (λ s h. h.0) (or_raise-Triple _ _ (λ s h. tt))) λ m.
          bind-Triple (before (λ s h. h.0) (raise_if-Triple _ _ (λ s h. tt))) λ _.
            bind-Triple {Q = λ _ s. IsSlip p × (has_match m.id p.legs ≡ false)}
              (after (λ a s h. h.0) (raise_if-Triple _ _ (λ s h. tt)))
              λ _.
                bind-Triple (forget (λ s h. tt) (get_bet_odds-Keeps m (some selection) user))
                  λ odds. bind-Triple (raise_if-Triple _ _ (λ s h. tt)) λ _.
                    let leg : Leg = record {
                      match_id = m.id;
                      selection = selection;
                      odds = odds;
                    } in
                    returns-Triple (add_leg leg p)
                      (λ s h. (add_leg-IsSlip leg p h.0.0 h.0.1 h.1, add_leg-length leg p.legs))

-- The whole loop: one leg for each item.
pub validate_items-Triple :
    (user : User) (items : List Item) (p : Slip)
    → Triple Any
        (λ s. IsSlip p)
        (validate_items user items p)
        (λ p' s. IsSlip p' × (length p'.legs ≡ length items + length p.legs))
unfolding validate_items
validate_items-Triple user [] p = returns-Triple p (λ s h. (h, omega arith))
validate_items-Triple user (item ∷ items) p = bind-Triple (validate_item-Triple user item p) λ p'.
    record {
      run = λ s h.
          (after (λ q s k. (k.0, omega (arith, k.1, h.1)))
              (validate_items-Triple user items p')).run
            s h.0;
    }
