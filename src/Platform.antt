-- ===== src/Platform.antt =====
-- The money services of the platform as one machine: what a request, a task or an admin view calls, in
-- any order, with errors answered to the caller and the state that the call left.
pub mod Books
pub mod Atomicity
use quickpaybet.Prelude.{ℕ, Option, none, List, [], ◌∷◌}
use quickpaybet.Models.Money.{Money, Odds, Column}
use quickpaybet.Models.Accounts.{User}
use quickpaybet.Models.Sports.{Match, Selection}
use quickpaybet.Models.Database.{Database}
use quickpaybet.Models.Payments.{Text}
use quickpaybet.Models.Casino.{CasinoGame}
use quickpaybet.Action.{Action, Done, pure, ◌▸◌, ◌>>=◌}
use quickpaybet.Payments.Providers.{Provider}
use quickpaybet.Payments.Requests.{create_deposit, create_withdrawal_request}
use quickpaybet.Payments.Deposits.{handle_deposit_success}
use quickpaybet.Casino.Launch.{CasinoProvider, launch_game}
use quickpaybet.Casino.Rounds.{Settlement, handle_round_settlement}
use quickpaybet.Casino.Seamless.{WaijaEvent, handle_waija_wallet_event}
use quickpaybet.Wallet.Funds.{deposit_funds, withdraw_funds}
use quickpaybet.Bets.Place.{place_bet}
use quickpaybet.Bets.Parlay.{Item, place_parlay_bet}
use quickpaybet.Bets.ParlaySettle.{settle_parlay_if_ready}
use quickpaybet.Exchange.Orders.{cancel_order}
use quickpaybet.Exchange.Settle.{settle_exchange_for_match}
use quickpaybet.Bets.MatchSettle.{settle_bets_for_match}

-- The calls that move money in wallets.
pub data Call : Type 0 where
  deposit withdraw : ℕ → Money → Call
  bet : User → ℕ → Option Selection → Money → Option Odds → Call
  parlay : User → Money → List Item → Call
  settle_match settle_exchange : Match → Call
  settle_parlay : ℕ → Call
  cancel : User → ℕ → Call
  request_deposit : Option Provider → User → Money → Text → Call
  request_withdrawal : Option Provider → Text → Text → User → Money → Option Text → Text → Call
  confirm_deposit : Text → Call
  launch : CasinoProvider → User → CasinoGame → Option Money → Call
  settle_round : Settlement → Call
  wallet_event : WaijaEvent → Call

-- The callers of a service that returns a value use it for display alone.
abbrev pub done : {A : Type 0} → Action A → Action Done
done m = m >>= λ _. pure tt

unfoldable pub perform : ⦃c : Column⦄ → Call → Action Done
perform (deposit u amount) = deposit_funds u amount
perform (withdraw u amount) = withdraw_funds u amount
perform (bet user k selection stake shown) = place_bet user k selection stake shown
perform (parlay user stake items) = place_parlay_bet user stake items
perform (settle_match m) = settle_bets_for_match m
perform (settle_exchange m) = settle_exchange_for_match m
perform (settle_parlay k) = settle_parlay_if_ready k
perform (cancel user k) = cancel_order user k
perform (request_deposit provider user amount currency) =
    done (create_deposit provider user amount currency)
perform (request_withdrawal provider name external_id user amount address currency) =
    done (create_withdrawal_request provider name external_id user amount address currency)
perform (confirm_deposit k) = handle_deposit_success k
perform (launch provider user game usd) = done (launch_game provider user game usd)
perform (settle_round r) = handle_round_settlement r
perform (wallet_event e) = done (handle_waija_wallet_event e)

unfoldable pub serve : ⦃c : Column⦄ → List Call → Database → Database
serve [] s = s
serve (call ∷ calls) s = serve calls (s ▸ perform call)
