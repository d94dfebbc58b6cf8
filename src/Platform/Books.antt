-- ===== src/Platform/Books.antt =====
-- The wallets, the ledger and the credits after any sequence of calls.
use quickpaybet.Prelude.{ℕ, ◌≡◌, some, List, [], ◌∷◌}
use quickpaybet.Prelude.Int.{pos, ◌+ℤ◌, ◌≤ℤ◌}
use quickpaybet.Models.Money.{Column}
use quickpaybet.Models.Wallets.{Wallet}
use quickpaybet.Models.Database.{Database}
use quickpaybet.Action.Triple.{Keeps, kept, Keeps-bind, Keeps-pure}
use quickpaybet.Wallet.Ledger.{wallet_of}
use quickpaybet.Wallet.Reconciled.{total, roundings}
use quickpaybet.Cashback.Locked.{locked_total}
use quickpaybet.Soundness.Invariant.{Sound}
use quickpaybet.Soundness.Services.{deposit_funds-Sound, withdraw_funds-Sound, place_bet-Sound}
use quickpaybet.Soundness.Parlays.{
  place_parlay_bet-Sound, settle_parlay_if_ready-Sound, settle_bets_for_match-Sound,
}
use quickpaybet.Soundness.Orders.{cancel_order-Sound}
use quickpaybet.Action.{Action}
use quickpaybet.Soundness.Payments.{
  create_deposit-Sound, create_withdrawal_request-Sound, handle_deposit_success-Sound,
}
use quickpaybet.Soundness.Casino.{
  launch_game-Sound, handle_round_settlement-Sound, handle_waija_wallet_event-Sound,
}
use quickpaybet.Soundness.Exchange.{settle_exchange_for_match-Sound}
use quickpaybet.Platform.{
  Call, deposit, withdraw, bet, parlay, settle_match, settle_exchange, settle_parlay, cancel,
  request_deposit, request_withdrawal, confirm_deposit, launch, settle_round, wallet_event, perform,
  serve, done,
}

done-Sound : {A : Type 0} {m : Action A} → Keeps Sound m → Keeps Sound (done m)
done-Sound h = Keeps-bind _ _ h (λ a. Keeps-pure tt)

module _ ⦃c : Column⦄ where
  perform-Sound : (call : Call) → Keeps Sound (perform call)
  unfolding perform
  perform-Sound (deposit u amount) = deposit_funds-Sound u amount
  perform-Sound (withdraw u amount) = withdraw_funds-Sound u amount
  perform-Sound (bet user k selection stake shown) = place_bet-Sound user k selection stake shown
  perform-Sound (parlay user stake items) = place_parlay_bet-Sound user stake items
  perform-Sound (settle_match m) = settle_bets_for_match-Sound m
  perform-Sound (settle_exchange m) = settle_exchange_for_match-Sound m
  perform-Sound (settle_parlay k) = settle_parlay_if_ready-Sound k
  perform-Sound (cancel user k) = cancel_order-Sound user k
  perform-Sound (request_deposit provider user amount currency) =
      done-Sound (create_deposit-Sound provider user amount currency)
  perform-Sound (request_withdrawal provider name external_id user amount address currency) =
      done-Sound
        (create_withdrawal_request-Sound provider name external_id user amount address currency)
  perform-Sound (confirm_deposit k) = handle_deposit_success-Sound k
  perform-Sound (launch provider user game usd) =
      done-Sound (launch_game-Sound provider user game usd)
  perform-Sound (settle_round r) = handle_round_settlement-Sound r
  perform-Sound (wallet_event e) = done-Sound (handle_waija_wallet_event-Sound e)

  pub serve-Sound : (calls : List Call) (s : Database) → Sound s → Sound (serve calls s)
  unfolding serve
  serve-Sound [] s h = h
  serve-Sound (call ∷ calls) s h = serve-Sound calls _ (kept (perform-Sound call) s h)

  -- From a state whose books agree, after any sequence of deposits, withdrawals, crypto payments and their webhooks, bets, parlays, settlements of a match's bets, of parlays and of a match's exchange orders, cancellations of orders, casino launches, casino rounds and wallet events, refused ones included, the balance of every user who has a wallet is the sum of its ledger rows to within one unit of 0.00000001 for each of its rows that is a bet's payout, a commission or an exchange result, and its locked cashback balance is exactly the sum of its user's locked credits.
  pub serve_books :
      (calls : List Call) (s : Database) (u : ℕ) (w : Wallet)
      → Sound s
      → wallet_of u (serve calls s) ≡ some w
      → let s' = serve calls s in
        let sum = total u s'.transactions in
        let n = pos (roundings u s'.transactions) in
        (w.balance ≤ℤ sum +ℤ n)
        × (sum ≤ℤ w.balance +ℤ n)
        × (w.locked_cashback_balance ≡ locked_total u s'.credits)
  serve_books calls s u w h found =
      let h' = serve-Sound calls s h in
      let agrees = rw found at (h'.reconciled.at u) in
      (agrees.0, agrees.1, rw found at (h'.locked u))
