-- ===== src/Platform/Atomicity.antt =====
-- The state after a call that raises.
use quickpaybet.Prelude.{◌≡◌, refl, Bool, true, false}
use quickpaybet.Models.Money.{Column}
use quickpaybet.Models.Database.{Database}
use quickpaybet.Action.{Action, Error, Result, ok, err, atomic, ◌▸◌, returns, ◌>>=◌}
use quickpaybet.Models.Payments.{CryptoPayment, PaymentType}
use quickpaybet.Action.{pure}
use quickpaybet.Action.Triple.{
  Ends, Triple, Keeps, bind-Triple, Keeps-raise_if, Keeps-gets, Keeps-or_raise, keeps_rules,
  pure-Triple, modify-Triple, gets-Triple, after,
}
use quickpaybet.Payments.Requests.{create_payment, create_deposit, new_payment}
use quickpaybet.Payments.Deposits.{find_deposit, credit_deposit, handle_deposit_success}
use quickpaybet.Casino.Rounds.{handle_round_settlement}
use quickpaybet.Casino.Seamless.{resolve_waija_user, in_usd, handle_waija_wallet_event}
use quickpaybet.Bets.Reads.{check_stake-Keeps, quote_bet-Keeps, validate_items-Keeps}
use quickpaybet.Wallet.Funds.{deposit_funds, withdraw_funds}
use quickpaybet.Bets.Place.{place_bet}
use quickpaybet.Bets.Parlay.{place_parlay_bet}
use quickpaybet.Bets.ParlaySettle.{settle_parlay_if_ready}
use quickpaybet.Exchange.Orders.{cancel_order}
use quickpaybet.Platform.{
  Call, deposit, withdraw, bet, parlay, settle_match, settle_exchange, settle_parlay, cancel,
  request_deposit, request_withdrawal, confirm_deposit, launch, settle_round, wallet_event, perform,
  done,
}

-- A call that ends in `s` itself when it is refused.
abbrev Undone : {A : Type 0} → Database → Action A → Type 0
Undone s m = Triple (λ t. t ≡ s) (λ t. t ≡ s) m (λ _ _. Unit)

atomic_undone-Ends :
    {A : Type 0} (s t : Database) (r : Result A × Database)
    → t ≡ s
    → Ends {A = A}
        (λ t. t ≡ s)
        (λ _ _. Unit)
        (let (a, t') = r in elim a [ ok a ↦ (ok a, t') | err e ↦ (err e, t) ])
atomic_undone-Ends s t (ok a, t') h = tt
atomic_undone-Ends s t (err e, t') h = h

atomic-Undone : {A : Type 0} (s : Database) (m : Action A) → Undone s (atomic m)
unfolding atomic
atomic-Undone s m = record { run = λ t h. atomic_undone-Ends s t (m t) h }

bind-Undone :
    {A B : Type 0} (s : Database) (m : Action A) (f : A → Action B)
    → Keeps (λ t. t ≡ s) m
    → ((a : A) → Undone s (f a))
    → Undone s (m >>= f)
bind-Undone s m f h k = bind-Triple h k

refused_end :
    {A : Type 0} (s : Database) (e : Error) (r : Result A × Database)
    → Ends (λ t. t ≡ s) (λ _ _. Unit) r
    → r.0 ≡ err e
    → r.1 ≡ s
refused_end s e (ok a, t) h k = cc
refused_end s e (err f, t) h k = h

-- The calls of one block; settling a match runs a block for each bet, parlay, fill and order.
abbrev pub is_one_block : Call → Bool
is_one_block (deposit u amount) = true
is_one_block (withdraw u amount) = true
is_one_block (bet user k selection stake shown) = true
is_one_block (parlay user stake items) = true
is_one_block (settle_match m) = false
is_one_block (settle_exchange m) = false
is_one_block (settle_parlay k) = true
is_one_block (cancel user k) = true
is_one_block (request_deposit provider user amount currency) = true
is_one_block (request_withdrawal provider name external_id user amount address currency) = false
is_one_block (confirm_deposit k) = true
is_one_block (launch provider user game usd) = false
is_one_block (settle_round r) = true
is_one_block (wallet_event e) = true

-- What is done after a call and does not raise.
then_done :
    {A B : Type 0} (s : Database) (m : Action A) (f : A → Action B)
    → Undone s m
    → ((a : A) → Triple (λ t. t ≡ s) (λ _. Unit) (f a) (λ _ _. Unit))
    → Undone s (m >>= f)
then_done s m f h k = bind-Triple {Q = λ _ _. Unit} h k

done-Undone : {A : Type 0} (s : Database) (m : Action A) → Undone s m → Undone s (done m)
done-Undone s m h = then_done s m (λ _. pure tt) h (λ a. pure-Triple tt)

create_payment-Undone : (s : Database) (p : CryptoPayment) → Undone s (create_payment p)
unfolding create_payment
create_payment-Undone s p = bind-Undone s _ _ (Keeps-gets _) λ taken.
    bind-Undone s _ _ (Keeps-raise_if _ _) λ _.
      bind-Undone s _ _ (Keeps-gets _)
        λ k. then_done s _ _ (modify-Triple _ (λ t e. tt)) (λ _. pure-Triple _)

perform-Undone :
    ⦃c : Column⦄ (call : Call) (s : Database) → is_one_block call ≡ true → Undone s (perform call)
unfolding perform deposit_funds withdraw_funds place_bet place_parlay_bet settle_parlay_if_ready
    cancel_order create_deposit handle_deposit_success find_deposit credit_deposit
    handle_round_settlement handle_waija_wallet_event resolve_waija_user in_usd
perform-Undone (deposit u amount) s h =
    bind-Undone s _ _ (Keeps-raise_if _ _) (λ _. atomic-Undone s _)
perform-Undone (withdraw u amount) s h =
    bind-Undone s _ _ (Keeps-raise_if _ _) (λ _. atomic-Undone s _)
perform-Undone (bet user k selection stake shown) s h =
    bind-Undone s _ _ (check_stake-Keeps user stake)
      λ _. bind-Undone s _ _ (quote_bet-Keeps user k selection shown) (λ q. atomic-Undone s _)
perform-Undone (parlay user stake items) s h = bind-Undone s _ _ (check_stake-Keeps user stake) λ _.
    bind-Undone s _ _ (Keeps-raise_if _ _) λ _.
      bind-Undone s _ _ (Keeps-raise_if _ _)
        λ _. bind-Undone s _ _ (validate_items-Keeps user items _) (λ p. atomic-Undone s _)
perform-Undone (settle_match m) s h = cc
perform-Undone (settle_exchange m) s h = cc
perform-Undone (settle_parlay k) s h = atomic-Undone s _
perform-Undone (cancel user k) s h = atomic-Undone s _
perform-Undone (request_deposit provider user amount currency) s h = done-Undone s _ (
    bind-Undone s _ _ (Keeps-raise_if _ _) λ _. bind-Undone s _ _ (Keeps-or_raise _ _) λ p.
      bind-Undone s _ _ (Keeps-or_raise _ _) λ answer. bind-Undone s _ _ (Keeps-gets _) λ converted.
        create_payment-Undone s (
          new_payment user amount currency converted PaymentType.deposit answer.provider
            answer.external_id answer.address))
perform-Undone (request_withdrawal provider name external_id user amount address currency) s h = cc
perform-Undone (confirm_deposit k) s h =
    bind-Undone s _ _ (search keeps_rules) λ p. atomic-Undone s _
perform-Undone (launch provider user game usd) s h = cc
perform-Undone (settle_round r) s h = bind-Undone s _ _ (Keeps-gets _) λ member.
    bind-Undone s _ _ (Keeps-or_raise _ _) λ user.
      bind-Undone s _ _ (Keeps-gets _)
        λ found. bind-Undone s _ _ (Keeps-or_raise _ _) λ game. atomic-Undone s _
perform-Undone (wallet_event e) s h = done-Undone s _ (
    bind-Undone s _ _ (search keeps_rules) λ user. bind-Undone s _ _ (Keeps-gets _) λ game.
      bind-Undone s _ _ (Keeps-gets _)
        λ converted. then_done s _ _ (atomic-Undone s _) λ w. after (λ _ t x. tt) (gets-Triple _))

-- A deposit, withdrawal, bet, parlay, parlay settlement, cancellation of an exchange order, request or confirmation of a crypto deposit, casino round or casino wallet event that returns an error leaves every table as it was.
pub refused_call_changes_nothing :
    ⦃c : Column⦄ (call : Call) (s : Database) (e : Error)
    → is_one_block call ≡ true
    → returns (perform call) s ≡ err e
    → s ▸ perform call ≡ s
refused_call_changes_nothing call s e h k =
    refused_end s e (perform call s) ((perform-Undone call s h).run s refl) k
