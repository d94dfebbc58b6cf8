-- ===== src/Exchange/Book.antt =====
-- `get_order_book`: the open stake at each price.
use quickpaybet.Prelude.{
  ℕ, zero, suc, Bool, ◌&&◌, none, some, List, [], ◌∷◌, select, ◌==◌, if◌then◌else◌,
}
use quickpaybet.Prelude.Int.{pos, ◌+ℤ◌, ltb_ℤ}
use quickpaybet.Models.Money.{Money, Odds}
use quickpaybet.Models.Sports.{Match, Selection, home, away, draw, same_selection}
use quickpaybet.Models.Exchange.{
  Side, back, lay, same_side, ExchangeOrder, is_open, unmatched_stake,
}
use quickpaybet.Models.Database.{Database}

pub record Level : Type 0 where
  pub odds : Odds
  pub total_stake : Money

-- A price comes before another: highest first among backs, lowest first among lays.
abbrev pub comes_first : Side → Odds → Odds → Bool
comes_first back x y = ltb_ℤ y x
comes_first lay x y = ltb_ℤ x y

-- `.values('odds').annotate(…)`, in the order of the prices
unfoldable pub add_level : Side → Odds → Money → List Level → List Level
add_level side x n [] = record { odds = x; total_stake = n } ∷ []
add_level side x n (l ∷ ls) =
    if comes_first side x l.odds
    then record { odds = x; total_stake = n } ∷ l ∷ ls
    else if comes_first side l.odds x
    then l ∷ add_level side x n ls
    else record l { total_stake = l.total_stake +ℤ n } ∷ ls

unfoldable pub levels : Side → List ExchangeOrder → List Level
unfolding add_level unmatched_stake
levels side [] = []
levels side (o ∷ os) = add_level side o.odds (unmatched_stake o) (levels side os)

abbrev has_stake : Level → Bool
has_stake l = ltb_ℤ (pos 0) l.total_stake

-- `[:depth]`
unfoldable pub first_levels : ℕ → List Level → List Level
first_levels zero ls = []
first_levels (suc n) [] = []
first_levels (suc n) (l ∷ ls) = l ∷ first_levels n ls

abbrev pub is_shown : Match → Selection → Side → ExchangeOrder → Bool
is_shown m selection side o =
    o.match_id == m.id
    && same_selection o.selection selection
    && same_side o.side side
    && is_open o.status

unfoldable pub book_side : Database → Match → ℕ → Selection → Side → List Level
unfolding levels first_levels
book_side s m depth selection side =
    first_levels depth
      (select has_stake (levels side (select (is_shown m selection side) s.orders)))

-- The selections of a match, with a draw if it has a price.
abbrev pub selections_of : Match → List Selection
selections_of m = home ∷ away ∷ elim m.odds_draw [ none ↦ [] | some x ↦ draw ∷ [] ]

pub record Quotes : Type 0 where
  pub selection : Selection
  pub backs : List Level
  pub lays : List Level

unfoldable pub quotes : Database → Match → ℕ → List Selection → List Quotes
unfolding book_side
quotes s m depth [] = []
quotes s m depth (x ∷ xs) =
    record { selection = x; backs = book_side s m depth x back; lays = book_side s m depth x lay }
    ∷ quotes s m depth xs

unfoldable pub get_order_book : Database → Match → ℕ → List Quotes
unfolding quotes
get_order_book s m depth = quotes s m depth (selections_of m)
