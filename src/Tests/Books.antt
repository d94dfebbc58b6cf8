-- ===== src/Tests/Books.antt =====
-- A day at the bookmaker: deposits, two bets, the match is settled, and a withdrawal is refused.
use quickpaybet.Prelude.{◌≡◌, refl, none, some, List, [], ◌∷◌}
use quickpaybet.Prelude.Int.{pos, ◌+ℤ◌, ◌≤ℤ◌, ◌*ℤ◌, ◌-ℤ◌}
use quickpaybet.Models.Sports.{home, away}
use quickpaybet.Models.Wallets.{Wallet}
use quickpaybet.Models.Database.{Database}
use quickpaybet.Wallet.Ledger.{wallet_of}
use quickpaybet.Wallet.Reconciled.{total, roundings}
use quickpaybet.Cashback.Locked.{locked_total}
use quickpaybet.Platform.{Call, deposit, withdraw, bet, settle_match, serve, perform}
use quickpaybet.Action.{◌>>=◌}
use quickpaybet.Prelude.Table.{get_row, put_row}
use quickpaybet.Prelude.Decimal.{by_sign, half_even}
use quickpaybet.Wallet.Funds.{deposit_funds, withdraw_funds}
use quickpaybet.Bets.Place.{place_bet}
use quickpaybet.Bets.Settle.{settle_bet, win_bet, lose_bet}
use quickpaybet.Bets.Commission.{credit_affiliate_commission}
use quickpaybet.Bets.MatchSettle.{settle_bets_for_match, settle_bets, lock_bet}
use quickpaybet.Bets.ParlaySettle.{settle_parlays_for_match, settle_legs, settle_parlays}
use quickpaybet.Cashback.Credit.{credit_cashback_for_loss, cashback_for, wagering_for}
use quickpaybet.Cashback.Wager.{wager_credits}
use quickpaybet.Cashback.Settings.{get_effective_settings}
use quickpaybet.Pricing.Effective.{get_effective_odds_for_user}
use quickpaybet.Pricing.Modes.{resolve_user_pricing_mode, compute_back_and_lay}
use quickpaybet.Platform.Books.{serve_books}
use quickpaybet.Tests.HalfEven.{half_even_column}
use quickpaybet.Tests.Data.{units, bettor, played, fresh, fresh-Sound}

abbrev a_day : List Call
a_day =
    deposit 1 (units 1000)
    ∷ deposit 2 (units 1)
    ∷ bet bettor 7 (some home) (units 400) (some (pos 215))
    ∷ bet bettor 7 (some away) (units 100) none
    ∷ settle_match played
    ∷ withdraw 1 (units 5000)
    ∷ []

abbrev evening : Database
evening = serve ⦃c = half_even_column⦄ a_day fresh

abbrev wallet_after : Wallet
wallet_after = record {
  user = 1;
  balance = units 865;
  reserved_balance = pos 0;
  locked_cashback_balance = units 20;
}

serve_books_run : wallet_of 1 evening ≡ some wallet_after
unfolding serve perform ◌>>=◌ get_row put_row by_sign half_even half_even_column deposit_funds
    withdraw_funds place_bet settle_bets_for_match settle_bets lock_bet settle_bet win_bet lose_bet
    credit_affiliate_commission credit_cashback_for_loss get_effective_settings
    settle_parlays_for_match settle_legs settle_parlays get_effective_odds_for_user
    resolve_user_pricing_mode compute_back_and_lay ◌*ℤ◌ ◌-ℤ◌ ◌+ℤ◌ wager_credits cashback_for
    wagering_for
serve_books_run = refl

serve_books_example :
    (wallet_after.balance ≤ℤ total 1 evening.transactions +ℤ pos (roundings 1 evening.transactions))
    × (total 1 evening.transactions
        ≤ℤ wallet_after.balance +ℤ pos (roundings 1 evening.transactions))
    × (wallet_after.locked_cashback_balance ≡ locked_total 1 evening.credits)
serve_books_example =
    serve_books ⦃c = half_even_column⦄ a_day fresh 1 wallet_after fresh-Sound serve_books_run
