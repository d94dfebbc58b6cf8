-- ===== src/Bets/Reads.antt =====
-- What a bet and a parlay read before they touch a row.
use quickpaybet.Prelude.{ℕ, Option, none, some, List, [], ◌∷◌}
use quickpaybet.Models.Money.{Money, Odds}
use quickpaybet.Models.Accounts.{User}
use quickpaybet.Models.Sports.{Match, Selection}
use quickpaybet.Models.Database.{Database}
use quickpaybet.Action.{raise, or_raise, no_odds}
use quickpaybet.Action.Triple.{Keeps, keeps_rules, Keeps-bind, Keeps-or_raise, Keeps-pure}
use quickpaybet.Pricing.Effective.{get_effective_odds_for_user, price_of}
use quickpaybet.Bets.Limits.{check_stake, get_bet_odds}
use quickpaybet.Bets.Place.{quote_bet}
use quickpaybet.Bets.Parlay.{Item, Slip, validate_item, validate_items}

-- What the services read before their block leaves any invariant alone.
module _ {I : Database → Type 0} where
  pub check_stake-Keeps : (user : User) (stake : Money) → Keeps I (check_stake user stake)
  unfolding check_stake
  check_stake-Keeps user stake = search keeps_rules

  pub get_bet_odds-Keeps :
      (m : Match) (selection : Option Selection) (user : User)
      → Keeps I (get_bet_odds m selection user)
  unfolding get_bet_odds raise or_raise
  get_bet_odds-Keeps m none user = record { run = λ s h. h }
  get_bet_odds-Keeps m (some selection) user = record {
    run = λ s h.
        (Keeps-or_raise (price_of (get_effective_odds_for_user s m user) selection) no_odds).run s
          h;
  }

  pub quote_bet-Keeps :
      (user : User) (k : ℕ) (selection : Option Selection) (shown : Option Odds)
      → Keeps I (quote_bet user k selection shown)
  unfolding quote_bet
  quote_bet-Keeps user k selection shown = search (keeps_rules, get_bet_odds-Keeps) depth 10

  validate_item-Keeps : (user : User) (item : Item) (p : Slip) → Keeps I (validate_item user item p)
  unfolding validate_item
  validate_item-Keeps user item p = search (keeps_rules, get_bet_odds-Keeps) depth 14

  pub validate_items-Keeps :
      (user : User) (items : List Item) (p : Slip) → Keeps I (validate_items user items p)
  unfolding validate_items
  validate_items-Keeps user [] p = Keeps-pure p
  validate_items-Keeps user (item ∷ items) p =
      Keeps-bind _ _ (validate_item-Keeps user item p) (λ p'. validate_items-Keeps user items p')
