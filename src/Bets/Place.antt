-- ===== src/Bets/Place.antt =====
-- `place_bet`
use quickpaybet.Prelude.{ℕ, suc, not, Option, length, ◌∷◌}
use quickpaybet.Prelude.Int.{◌-ℤ◌, ◌*ℤ◌, neg, ltb_ℤ}
use quickpaybet.Prelude.Table.{get_row}
use quickpaybet.Models.Money.{Money, Odds, Column, store}
use quickpaybet.Models.Accounts.{User}
use quickpaybet.Models.Sports.{Match, Selection, is_open_for_betting}
use quickpaybet.Models.Wallets.{TxnType}
use quickpaybet.Models.Bets.{BetStatus}
use quickpaybet.Action.{
  Action, Done, pure, atomic, gets, modify, or_raise, raise_if, raise, match_not_found,
  betting_closed, no_odds, odds_changed, insufficient_balance, ◌>>=◌, ◌>>◌,
}
use quickpaybet.Wallet.Ledger.{lock_wallet, save_wallet, record_transaction}
use quickpaybet.Cashback.Wager.{record_wager}
use quickpaybet.Bets.Limits.{check_stake, get_bet_odds, odds_moved}

-- `wallet.balance -= stake`, the wager, and the ledger row: what both kinds of bets do with the wallet.
unfoldable pub charge_stake : ℕ → Money → Action Done
unfolding lock_wallet save_wallet record_transaction record_wager
charge_stake user stake = do
  wallet ← lock_wallet user
  raise_if (ltb_ℤ wallet.balance stake) insufficient_balance
  let charged = record wallet { balance = wallet.balance -ℤ stake }
  save_wallet charged
  wallet' ← record_wager charged stake
  record_transaction wallet' TxnType.bet_placed (neg stake)

-- `Bet.objects.create(…)`; the table stands newest first.
unfoldable pub create_bet : ⦃c : Column⦄ → ℕ → Match → Selection → Odds → Money → Action Done
create_bet user m selection odds stake = modify λ s. record s {
  bets =
      record {
        id = suc (length s.bets);
        user = user;
        match_id = m.id;
        selection = selection;
        odds = odds;
        stake = stake;
        potential_payout = store (stake *ℤ odds) 100;
        status = BetStatus.pending;
      }
      ∷ s.bets;
}

-- What `place_bet` reads before it touches a row: the match, and the odds that the user is charged.
unfoldable pub quote_bet : User → ℕ → Option Selection → Option Odds → Action (Match × Odds)
unfolding get_bet_odds odds_moved
quote_bet user match_id selection odds_shown = do
  m ← or_raise (← gets (λ s. get_row Match.id match_id s.matches)) match_not_found
  raise_if (not (is_open_for_betting m.status)) betting_closed
  odds ← get_bet_odds m selection user
  raise_if (odds_moved odds odds_shown) odds_changed
  pure (m, odds)

abbrev pub create_for : ⦃c : Column⦄ → User → Match → Option Selection → Odds → Money → Action Done
create_for user m Option.none odds stake = raise no_odds
create_for user m (Option.some selection) odds stake = create_bet user.id m selection odds stake

unfoldable pub place_bet :
    ⦃c : Column⦄ → User → ℕ → Option Selection → Money → Option Odds → Action Done
unfolding check_stake quote_bet charge_stake create_bet
place_bet user match_id selection stake odds_shown = do
  check_stake user stake
  quote ← quote_bet user match_id selection odds_shown
  atomic do charge_stake user.id stake; create_for user quote.0 selection quote.1 stake
