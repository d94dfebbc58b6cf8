-- ===== src/Soundness/Orders.antt =====
-- The invariant for cancelling an order of the exchange.
use quickpaybet.Prelude.{ℕ, refl}
use quickpaybet.Models.Money.{Column}
use quickpaybet.Models.Accounts.{User}
use quickpaybet.Action.Triple.{
  Keeps, bind-Triple, before, Keeps-bind, Keeps-modify, Keeps-atomic, Keeps-gets, Keeps-or_raise,
  Keeps-raise_if,
}
use quickpaybet.Exchange.Orders.{cancel_order, add_to_reserved}
use quickpaybet.Soundness.Invariant.{Sound}
use quickpaybet.Soundness.Statements.{lock-Triple, reserve-Triple}

pub cancel_order-Sound : ⦃c : Column⦄ (user : User) (k : ℕ) → Keeps Sound (cancel_order user k)
unfolding cancel_order
cancel_order-Sound user k = Keeps-atomic _ (
    Keeps-bind _ _ (Keeps-gets _) λ found. Keeps-bind _ _ (Keeps-or_raise _ _) λ order.
      Keeps-bind _ _ (Keeps-raise_if _ _) λ _. Keeps-bind _ _ (Keeps-raise_if _ _) λ _.
        bind-Triple (lock-Triple user.id) λ w.
          bind-Triple (before (λ s h. h.0) (reserve-Triple w (add_to_reserved _ w) refl refl refl))
            (λ _. Keeps-modify _ (λ s h. h)))
