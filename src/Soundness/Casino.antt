-- ===== src/Soundness/Casino.antt =====
-- The invariant for casino games.
use quickpaybet.Prelude.{ℕ, refl, Bool, true, false, Option, none, some, if◌then◌else◌}
use quickpaybet.Prelude.Int.{ℤ, ◌+ℤ◌, int_laws}
use quickpaybet.Models.Money.{Money}
use quickpaybet.Models.Accounts.{User}
use quickpaybet.Models.Wallets.{Wallet, TxnType}
use quickpaybet.Models.Payments.{Text}
use quickpaybet.Models.Casino.{CasinoConfig, CasinoGame, CasinoSession, EventAction, debit, credit}
use quickpaybet.Action.{gets, pure, ◌>>=◌, ◌>>◌}
use quickpaybet.Action.Triple.{
  Triple, Keeps, keeps_rules, Keeps-modify, bind-Triple, before, after, Keeps-atomic,
  raise_if-Triple, gets-Triple, pure-Triple,
}
use quickpaybet.Wallet.Ledger.{lock_wallet, save_wallet, record_transaction}
use quickpaybet.Casino.Launch.{
  CasinoProvider, Converted, create_session, reserve, unreserve, reserve_launch, release_launch,
  debit_launch, finish_launch, launch_seamless, launch_upfront, launch_with, launch_game,
}
use quickpaybet.Casino.Rounds.{
  Settlement, record_round, credit_win, apply_round, handle_round_settlement,
}
use quickpaybet.Casino.Seamless.{
  WaijaEvent, resolve_waija_user, in_usd, move_cash, record_event, apply_event, skips_cash,
  has_call, handle_waija_wallet_event,
}
use quickpaybet.Soundness.Invariant.{Sound, Held, entry-IsSound}
use quickpaybet.Soundness.Statements.{lock-Triple, reserve-Triple, entry-Triple}

create_session-Sound :
    (user : User) (game : CasinoGame) (config : CasinoConfig) (usd : Money) (amount : ℤ)
    (converted : Converted)
    → Keeps Sound (create_session user game config usd amount converted)
unfolding create_session
create_session-Sound user game config usd amount converted = Keeps-modify _ (λ s h. h)

reserve_launch-Sound : (u : ℕ) (a : Money) → Keeps Sound (reserve_launch u a)
unfolding reserve_launch
reserve_launch-Sound u a = Keeps-atomic _ (
    bind-Triple (lock-Triple u) λ w.
      bind-Triple {Q = λ _. Held w}
        (before (λ s h. h.0) (after (λ _ s h. h.0) (raise_if-Triple _ _ (λ s h. h.0))))
        (λ _. reserve-Triple w (reserve a w) refl refl refl))

release_launch-Sound : (u : ℕ) (a : Money) → Keeps Sound (release_launch u a)
unfolding release_launch
release_launch-Sound u a = Keeps-atomic _ (
    bind-Triple (lock-Triple u)
      λ w. before (λ s h. h.0) (reserve-Triple w (unreserve a w) refl refl refl))

debit_launch-Sound :
    (user : User) (game : CasinoGame) (config : CasinoConfig) (usd : Money) (amount : ℤ)
    (converted : Converted)
    → Keeps Sound (debit_launch user game config usd amount converted)
unfolding debit_launch
debit_launch-Sound user game config usd amount converted = Keeps-atomic _ (
    bind-Triple (lock-Triple user.id) λ w.
      unfold save_wallet create_session record_transaction ◌>>=◌ in
      record {
        run =
            λ s (h, same). entry-IsSound h.0 w _ _ h.1 refl (omega int_laws) (omega int_laws) refl;
      })

finish_launch-Sound :
    (user : User) (game : CasinoGame) (config : CasinoConfig) (usd : Money) (amount : ℤ)
    (converted : Converted) (answer : Option Text)
    → Keeps Sound (finish_launch user game config usd amount converted answer)
unfolding finish_launch
finish_launch-Sound user game config usd amount converted none =
    search (keeps_rules, release_launch-Sound)
finish_launch-Sound user game config usd amount converted (some url) =
    search (keeps_rules, debit_launch-Sound)

launch_with-Sound :
    (provider : CasinoProvider) (user : User) (game : CasinoGame) (config : CasinoConfig)
    (usd : Option Money)
    → Keeps Sound (launch_with provider user game config usd)
unfolding launch_with launch_upfront
launch_with-Sound provider user game config none = search keeps_rules
launch_with-Sound provider user game config (some usd) =
    search (keeps_rules, reserve_launch-Sound, finish_launch-Sound) depth 10

launch_seamless-Sound :
    (provider : CasinoProvider) (user : User) (game : CasinoGame) (config : CasinoConfig)
    → Keeps Sound (launch_seamless provider user game config)
unfolding launch_seamless
launch_seamless-Sound provider user game config = search (keeps_rules, create_session-Sound) depth 8

pub launch_game-Sound :
    (provider : CasinoProvider) (user : User) (game : CasinoGame) (usd : Option Money)
    → Keeps Sound (launch_game provider user game usd)
unfolding launch_game
launch_game-Sound provider user game usd =
    search (keeps_rules, launch_with-Sound, launch_seamless-Sound) depth 10

record_round-Sound :
    (session : CasinoSession) (r : Settlement) → Keeps Sound (record_round session r)
unfolding record_round
record_round-Sound session r = Keeps-modify _ (λ s h. h)

pay_win-Sound :
    (u : ℕ) (a : Money)
    → Keeps Sound (
        lock_wallet u >>= λ w.
        save_wallet (record w { balance = w.balance +ℤ a })
        >> record_transaction (record w { balance = w.balance +ℤ a }) TxnType.casino_win a)
pay_win-Sound u a = bind-Triple (lock-Triple u) λ w.
    before (λ s h. h.0)
      (entry-Triple w (record w { balance = w.balance +ℤ a }) TxnType.casino_win a refl
        (omega int_laws) (omega int_laws) refl)

credit_win-Sound : (u : ℕ) (a : Money) → Keeps Sound (credit_win u a)
unfolding credit_win
credit_win-Sound u a = search (keeps_rules, pay_win-Sound)

apply_round-Sound :
    (user : User) (session : CasinoSession) (r : Settlement)
    → Keeps Sound (apply_round user session r)
unfolding apply_round
apply_round-Sound user session r =
    search (keeps_rules, record_round-Sound, credit_win-Sound) depth 8

pub handle_round_settlement-Sound : (r : Settlement) → Keeps Sound (handle_round_settlement r)
unfolding handle_round_settlement
handle_round_settlement-Sound r = search (keeps_rules, apply_round-Sound) depth 14

-- Moving cash on a wallet that is held.
move_cash-Sound :
    (user : User) (action : EventAction) (a : Money) (w : Wallet)
    → Triple Sound (Held w) (move_cash user action a w) (λ _. Sound)
unfolding move_cash
move_cash-Sound user debit a w =
    bind-Triple {Q = λ _. Held w} (unfold in_usd in after (λ _ s h. h.0) (gets-Triple _)) λ usd.
      bind-Triple {Q = λ _. Held w} (after (λ _ s h. h.0) (raise_if-Triple _ _ (λ s h. h.0))) λ _.
        unfold save_wallet record_transaction ◌>>=◌ in
        record {
          run = λ s h. entry-IsSound h.0 w _ _ h.1 refl (omega int_laws) (omega int_laws) refl;
        }
move_cash-Sound user credit a w =
    unfold save_wallet record_transaction ◌>>=◌ in
    record { run = λ s h. entry-IsSound h.0 w _ _ h.1 refl (omega int_laws) (omega int_laws) refl }

record_event-Sound :
    (user : User) (e : WaijaEvent) (game : Option CasinoGame) (converted : Converted)
    → Keeps Sound (record_event user e game converted)
unfolding record_event
record_event-Sound user e game converted = Keeps-modify _ (λ s h. h)

moved-Sound :
    (b : Bool) (user : User) (action : EventAction) (a : Money) (w : Wallet)
    → Triple Sound (Held w) (if b then pure w else move_cash user action a w) (λ _. Sound)
moved-Sound true user action a w = before (λ s h. h.0) (pure-Triple w)
moved-Sound false user action a w = move_cash-Sound user action a w

apply_event-Sound :
    (user : User) (e : WaijaEvent) (game : Option CasinoGame) (converted : Converted) (w : Wallet)
    → Triple Sound (Held w) (apply_event user e game converted w) (λ _. Sound)
unfolding apply_event
apply_event-Sound user e game converted w =
    bind-Triple (moved-Sound (skips_cash e) user e.action converted.0 w)
      λ moved. search (keeps_rules, record_event-Sound)

in_event-Sound :
    (b : Bool) (user : User) (e : WaijaEvent) (game : Option CasinoGame) (converted : Converted)
    (w : Wallet)
    → Triple Sound (Held w) (if b then pure w else apply_event user e game converted w) (λ _. Sound)
in_event-Sound true user e game converted w = before (λ s h. h.0) (pure-Triple w)
in_event-Sound false user e game converted w = apply_event-Sound user e game converted w

event_block-Sound :
    (user : User) (e : WaijaEvent) (game : Option CasinoGame) (converted : Converted)
    → Keeps Sound (
        lock_wallet user.id >>= λ w. gets (has_call e.call_id) >>= λ applied.
        if applied then pure w else apply_event user e game converted w)
event_block-Sound user e game converted = bind-Triple (lock-Triple user.id) λ w.
    bind-Triple {Q = λ _. Held w} (after (λ _ s h. h.0.0) (gets-Triple _))
      λ applied. in_event-Sound applied user e game converted w

pub handle_waija_wallet_event-Sound : (e : WaijaEvent) → Keeps Sound (handle_waija_wallet_event e)
unfolding handle_waija_wallet_event resolve_waija_user in_usd
handle_waija_wallet_event-Sound e = search (keeps_rules, event_block-Sound) depth 14
