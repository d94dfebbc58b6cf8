-- ===== src/Exchange/Priority.antt =====
-- The order in which `_match_order` meets the resting orders.
use quickpaybet.Prelude.{
  All-map, ap, ◌≡◌, ◌⊎◌, ◌≤◌, refl, Bool, true, false, ◌&&◌, List, [], ◌∷◌, All, select, Bool-cases,
  inl, inr, arith, length, ◌∙◌,
}
use quickpaybet.Models.Money.{Odds}
use quickpaybet.Prelude.Int.{◌<ℤ◌, ltb_ℤ, ltb_ℤ→lt, eq_of_parts}
use quickpaybet.Models.Exchange.{Side, back, lay, ExchangeOrder}
use quickpaybet.Exchange.Matching.{
  is_better, insert_order, sort_orders, is_counterparty, resting_for,
}
use quickpaybet.Exchange.Eligible.{Eligible, counterparty-Eligible, Eligible-counterparty}

-- A higher price is better for a back order, a lower one for a lay order.
abbrev pub Cheaper : Side → Odds → Odds → Type 0
Cheaper back p q = q <ℤ p
Cheaper lay p q = p <ℤ q

-- `x` may stand before `y`: a better price, or the same price and no later time.
abbrev pub Ahead : Side → ExchangeOrder → ExchangeOrder → Type 0
Ahead side x y = Cheaper side x.odds y.odds ⊎ ((x.odds ≡ y.odds) × (x.created_at ≤ y.created_at))

abbrev pub InPriority : Side → List ExchangeOrder → Type 0
InPriority side [] = Unit
InPriority side (x ∷ xs) = All (Ahead side x) xs × InPriority side xs

-- The same order, as the comparison of the sort says it.
abbrev IsSorted : Side → List ExchangeOrder → Type 0
IsSorted side [] = Unit
IsSorted side (x ∷ xs) = All (λ y. is_better side y x ≡ false) xs × IsSorted side xs

better-Ahead : (side : Side) (x y : ExchangeOrder) → is_better side y x ≡ false → Ahead side x y
unfolding is_better
better-Ahead back x y h = elim (Bool-cases (ltb_ℤ y.odds x.odds)) [
  | inl e ↦ inl (ltb_ℤ→lt y.odds x.odds e)
  | inr e ↦ inr (eq_of_parts x.odds y.odds (ground (arith, e, h)), ground (arith, e, h))
]
better-Ahead lay x y h = elim (Bool-cases (ltb_ℤ x.odds y.odds)) [
  | inl e ↦ inl (ltb_ℤ→lt x.odds y.odds e)
  | inr e ↦ inr (eq_of_parts x.odds y.odds (ground (arith, e, h)), ground (arith, e, h))
]

better_trans :
    (side : Side) (x y z : ExchangeOrder)
    → is_better side x y ≡ true
    → is_better side z y ≡ false
    → is_better side z x ≡ false
unfolding is_better
better_trans back x y z h k = ground arith
better_trans lay x y z h k = ground arith

better_asym :
    (side : Side) (x y : ExchangeOrder) → is_better side x y ≡ true → is_better side y x ≡ false
unfolding is_better
better_asym back x y h = ground arith
better_asym lay x y h = ground arith

All-better :
    (side : Side) (x y : ExchangeOrder) (ys : List ExchangeOrder)
    → is_better side x y ≡ true
    → All (λ z. is_better side z y ≡ false) ys
    → All (λ z. is_better side z x ≡ false) ys
All-better side x y [] h a = tt
All-better side x y (z ∷ ys) h a = (better_trans side x y z h a.0, All-better side x y ys h a.1)

module _ (side : Side) (P : ExchangeOrder → Type 0) where
  All-insert :
      (x : ExchangeOrder) (ys : List ExchangeOrder)
      → P x
      → All P ys
      → All P (insert_order side x ys)
  unfolding insert_order
  All-insert x [] p a = (p, tt)
  All-insert x (y ∷ ys) p a = elim (Bool-cases (is_better side x y)) [
    | inl e ↦ rw e (p, a)
    | inr e ↦ rw e (a.0, All-insert x ys p a.1)
  ]

  All-sort : (xs : List ExchangeOrder) → All P xs → All P (sort_orders side xs)
  unfolding sort_orders
  All-sort [] a = tt
  All-sort (x ∷ xs) a = All-insert x (sort_orders side xs) a.0 (All-sort xs a.1)

insert_order-IsSorted :
    (side : Side) (x : ExchangeOrder) (ys : List ExchangeOrder)
    → IsSorted side ys
    → IsSorted side (insert_order side x ys)
unfolding insert_order
insert_order-IsSorted side x [] h = (tt, tt)
insert_order-IsSorted side x (y ∷ ys) h = elim (Bool-cases (is_better side x y)) [
  | inl e ↦ rw e ((better_asym side x y e, All-better side x y ys e h.0), h)
  | inr e ↦ rw e (
    All-insert side (λ z. is_better side z y ≡ false) x ys e h.0,
    insert_order-IsSorted side x ys h.1,
  )
]

sort_orders-IsSorted : (side : Side) (xs : List ExchangeOrder) → IsSorted side (sort_orders side xs)
unfolding sort_orders
sort_orders-IsSorted side [] = tt
sort_orders-IsSorted side (x ∷ xs) =
    insert_order-IsSorted side x (sort_orders side xs) (sort_orders-IsSorted side xs)

All-select :
    (p : ExchangeOrder → Bool) (xs : List ExchangeOrder) → All (λ x. p x ≡ true) (select p xs)
All-select p [] = tt
All-select p (x ∷ xs) = elim (Bool-cases (p x)) [
  | inl e ↦ rw e (e, All-select p xs)
  | inr e ↦ rw e (All-select p xs)
]

-- Sorting keeps how many orders have a property.
module _ (side : Side) (q : ExchangeOrder → Bool) where
  length-insert :
      (x : ExchangeOrder) (ys : List ExchangeOrder)
      → length (select q (insert_order side x ys)) ≡ length (select q (x ∷ ys))
  unfolding insert_order
  length-insert x [] = refl
  length-insert x (y ∷ ys) = elim (Bool-cases (is_better side x y)) [
    | inl e ↦ rw e refl
    | inr e ↦ rw e (ground (arith, length-insert x ys))
  ]

  length-sort :
      (xs : List ExchangeOrder) → length (select q (sort_orders side xs)) ≡ length (select q xs)
  unfolding sort_orders
  length-sort [] = refl
  length-sort (x ∷ xs) = ground (arith, length-insert x (sort_orders side xs), length-sort xs)

length-select_twice :
    (p q : ExchangeOrder → Bool) (xs : List ExchangeOrder)
    → length (select q (select p xs)) ≡ length (select (λ x. p x && q x) xs)
length-select_twice p q [] = refl
length-select_twice p q (x ∷ xs) = ground (arith, length-select_twice p q xs)

sorted-InPriority : (side : Side) (xs : List ExchangeOrder) → IsSorted side xs → InPriority side xs
sorted-InPriority side [] h = tt
sorted-InPriority side (x ∷ xs) h =
    (All-map (λ y k. better-Ahead side x y k) xs h.0, sorted-InPriority side xs h.1)

-- A test that implies another one.
select-narrow :
    (p q : ExchangeOrder → Bool) (xs : List ExchangeOrder)
    → ((x : ExchangeOrder) → q x ≡ true → p x ≡ true)
    → select (λ x. p x && q x) xs ≡ select q xs
select-narrow p q [] h = refl
select-narrow p q (x ∷ xs) h = elim (Bool-cases (q x)) [
  | inl e ↦ rw (h x e, e) (ap (λ ys. x ∷ ys) (select-narrow p q xs h))
  | inr e ↦ elim (Bool-cases (p x)) [
    | inl k ↦ rw (k, e) (select-narrow p q xs h)
    | inr k ↦ rw (k, e) (select-narrow p q xs h)
  ]
]

pub resting_for-Eligible :
    (o : ExchangeOrder) (orders : List ExchangeOrder) → All (Eligible o) (resting_for o orders)
unfolding resting_for
resting_for-Eligible o orders =
    All-map (counterparty-Eligible o) _
      (All-sort o.side (λ r. is_counterparty o r ≡ true) _ (All-select (is_counterparty o) orders))

-- Over any table of orders, the loop is given only open orders of other users, on the other side of the same match and selection, at a price that the new order accepts, best price first and, at one price, earliest first; and of any test that only such orders pass, as many as the table has.
pub resting_for-InPriority :
    (o : ExchangeOrder) (orders : List ExchangeOrder) (q : ExchangeOrder → Bool)
    → ((r : ExchangeOrder) → q r ≡ true → Eligible o r)
    → InPriority o.side (resting_for o orders)
      × All (Eligible o) (resting_for o orders)
      × (length (select q (resting_for o orders)) ≡ length (select q orders))
unfolding resting_for
resting_for-InPriority o orders q only =
    let chosen = select (is_counterparty o) orders in
    (
      sorted-InPriority o.side _ (sort_orders-IsSorted o.side chosen),
      resting_for-Eligible o orders,
      length-sort o.side q chosen
          ∙ length-select_twice (is_counterparty o) q orders
          ∙ ap length (
              select-narrow (is_counterparty o) q orders
                (λ x e. Eligible-counterparty o x (only x e))),
    )
