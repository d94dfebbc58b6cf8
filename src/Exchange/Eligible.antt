-- ===== src/Exchange/Eligible.antt =====
-- The rows that the query of `_match_order` selects, described without its tests.
use quickpaybet.Prelude.{
  ℕ, not, ◌==◌, ==_iff, ==_ne, ==_refl, ◌≡◌, ◌≢◌, refl, Bool, true, false, ◌&&◌, arith,
}
use quickpaybet.Models.Money.{Odds}
use quickpaybet.Models.Sports.{Selection, home, draw, away, same_selection}
use quickpaybet.Prelude.Int.{◌≤ℤ◌, leb_ℤ→le}
use quickpaybet.Models.Exchange.{
  Side, back, lay, opposite, same_side, is_open, ExchangeOrder, OrderStatus,
}
use quickpaybet.Exchange.Matching.{is_counterparty, is_acceptable}

abbrev pub Accepts : Side → Odds → Odds → Type 0
Accepts back wanted offered = wanted ≤ℤ offered
Accepts lay wanted offered = offered ≤ℤ wanted

-- An open order of another user, on the other side of the same market, at a price that `o` accepts.
pub record Eligible (o r : ExchangeOrder) : Type 0 where
  pub same_match : r.match_id ≡ o.match_id
  pub one_selection : r.selection ≡ o.selection
  pub other_side : r.side ≡ opposite o.side
  pub still_open : r.status ≡ OrderStatus.opened
  pub other_user : r.user ≢ o.user
  pub accepted : Accepts o.side o.odds r.odds

both_true : (a b : Bool) → (a && b) ≡ true → (a ≡ true) × (b ≡ true)
both_true true b h = (refl, h)
both_true false b h = cc

same_selection-eq : (a b : Selection) → same_selection a b ≡ true → a ≡ b
same_selection-eq home home h = refl
same_selection-eq home draw h = cc
same_selection-eq home away h = cc
same_selection-eq draw home h = cc
same_selection-eq draw draw h = refl
same_selection-eq draw away h = cc
same_selection-eq away home h = cc
same_selection-eq away draw h = cc
same_selection-eq away away h = refl

same_selection_refl : (a : Selection) → same_selection a a ≡ true
same_selection_refl home = refl
same_selection_refl draw = refl
same_selection_refl away = refl

same_side-eq : (a b : Side) → same_side a b ≡ true → a ≡ b
same_side-eq back back h = refl
same_side-eq back lay h = cc
same_side-eq lay back h = cc
same_side-eq lay lay h = refl

same_side_refl : (a : Side) → same_side a a ≡ true
same_side_refl back = refl
same_side_refl lay = refl

is_open-eq : (x : OrderStatus) → is_open x ≡ true → x ≡ OrderStatus.opened
is_open-eq OrderStatus.opened h = refl
is_open-eq OrderStatus.cancelled h = cc
is_open-eq OrderStatus.settled h = cc
is_open-eq OrderStatus.void h = cc

acceptable-Accepts :
    (side : Side) (wanted offered : Odds)
    → is_acceptable side wanted offered ≡ true
    → Accepts side wanted offered
unfolding is_acceptable
acceptable-Accepts back p q h = leb_ℤ→le p q h
acceptable-Accepts lay p q h = leb_ℤ→le q p h

Accepts-acceptable :
    (side : Side) (wanted offered : Odds)
    → Accepts side wanted offered
    → is_acceptable side wanted offered ≡ true
unfolding is_acceptable
Accepts-acceptable back p q h = ground (arith, h)
Accepts-acceptable lay p q h = ground (arith, h)

different-ne : (u v : ℕ) → not (u == v) ≡ true → u ≢ v
different-ne u v h = λ e. ground (arith, h, e)

pub counterparty-Eligible : (o r : ExchangeOrder) → is_counterparty o r ≡ true → Eligible o r
unfolding is_counterparty
counterparty-Eligible o r h =
    let (h4, a) = both_true _ (is_acceptable o.side o.odds r.odds) h in
    let (h3, u) = both_true _ (not (r.user == o.user)) h4 in
    let (h2, p) = both_true _ (is_open r.status) h3 in
    let (h1, d) = both_true _ (same_side r.side (opposite o.side)) h2 in
    let (m, x) = both_true (r.match_id == o.match_id) (same_selection r.selection o.selection) h1 in
    record {
      same_match = (==_iff r.match_id o.match_id).0 m;
      one_selection = same_selection-eq r.selection o.selection x;
      other_side = same_side-eq r.side (opposite o.side) d;
      still_open = is_open-eq r.status p;
      other_user = different-ne r.user o.user u;
      accepted = acceptable-Accepts o.side o.odds r.odds a;
    }

pub Eligible-counterparty : (o r : ExchangeOrder) → Eligible o r → is_counterparty o r ≡ true
unfolding is_counterparty
Eligible-counterparty o r h =
    rw
      (
        h.same_match,
        h.one_selection,
        h.other_side,
        h.still_open,
        ==_ne h.other_user,
        Accepts-acceptable o.side o.odds r.odds h.accepted,
        ==_refl,
        same_selection_refl,
        same_side_refl,
      )
      refl
