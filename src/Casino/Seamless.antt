-- ===== src/Casino/Seamless.antt =====
-- The callbacks of a seamless-wallet provider: `handle_waija_balance_query` and
-- `handle_waija_wallet_event`. A username that is not `qpb` and a number is `none`.
use quickpaybet.Prelude.{ℕ, Bool, ◌&&◌, Option, none, some, ◌∷◌, any, ◌==◌, if◌then◌else◌}
use quickpaybet.Prelude.Int.{◌+ℤ◌, ◌-ℤ◌, neg, ltb_ℤ}
use quickpaybet.Models.Money.{Money}
use quickpaybet.Models.Accounts.{User}
use quickpaybet.Models.Wallets.{Wallet, TxnType, available_balance}
use quickpaybet.Models.Payments.{Text}
use quickpaybet.Models.Casino.{CasinoGame, EventAction, debit, credit, is_debit}
use quickpaybet.Models.Database.{Database}
use quickpaybet.Action.{
  Action, Done, atomic, gets, modify, pure, or_raise, raise_if, unknown_player,
  insufficient_casino_balance, ◌>>=◌, ◌>>◌,
}
use quickpaybet.Wallet.Ledger.{lock_wallet, get_or_create_wallet, save_wallet, record_transaction}
use quickpaybet.Wallet.Rates.{convert_usd_to_wallet_currency, convert_wallet_currency_to_usd}
use quickpaybet.Casino.Launch.{Converted}
use quickpaybet.Casino.Rounds.{member_of, game_of}

pub record WaijaEvent : Type 0 where
  pub username : Option ℕ
  pub action : EventAction
  pub amount : Money
  pub call_id : Text
  pub round_id : Text
  pub game_uid : Text
  pub is_bonus_fs : Bool
  pub is_rollback : Bool

unfoldable pub resolve_waija_user : Option ℕ → Action User
resolve_waija_user username = do or_raise (← gets (member_of username)) unknown_player

unfoldable pub in_usd : User → Money → Action Money
unfolding convert_wallet_currency_to_usd
in_usd user amount = gets (λ s. convert_wallet_currency_to_usd s.fx_config user amount)

unfoldable pub handle_waija_balance_query : Option ℕ → Action Money
unfolding resolve_waija_user get_or_create_wallet in_usd
handle_waija_balance_query username = do
  user ← resolve_waija_user username
  wallet ← get_or_create_wallet user.id
  in_usd user wallet.balance

abbrev pub has_call : Text → Database → Bool
has_call k s = any (λ e. e.call_id == k) s.wallet_events

abbrev pub skips_cash : WaijaEvent → Bool
skips_cash e = e.is_bonus_fs && is_debit e.action

-- The event's change of the wallet, which comes back as it is saved.
unfoldable pub move_cash : User → EventAction → Money → Wallet → Action Wallet
unfolding save_wallet record_transaction available_balance in_usd
move_cash user debit amount wallet = do
  usd ← in_usd user wallet.balance
  raise_if (ltb_ℤ (available_balance wallet) amount) (insufficient_casino_balance usd)
  let paid = record wallet { balance = wallet.balance -ℤ amount }
  save_wallet paid
  record_transaction paid TxnType.casino_bet (neg amount)
  pure paid
move_cash user credit amount wallet = do
  let paid = record wallet { balance = wallet.balance +ℤ amount }
  save_wallet paid
  record_transaction paid TxnType.casino_win amount
  pure paid

abbrev pub game_id : Option CasinoGame → Option ℕ
game_id none = none
game_id (some g) = some g.id

unfoldable pub record_event : User → WaijaEvent → Option CasinoGame → Converted → Action Done
record_event user e game (amount, currency, rate) = modify λ s. record s {
  wallet_events =
      record {
        user = user.id;
        call_id = e.call_id;
        action = e.action;
        amount = e.amount;
        wallet_amount = amount;
        wallet_currency = currency;
        wallet_fx_rate_applied = rate;
        round_id = e.round_id;
        game = game_id game;
        is_bonus_fs = e.is_bonus_fs;
        is_rollback = e.is_rollback;
        cash_skipped = skips_cash e;
      }
      ∷ s.wallet_events;
}

-- An event that was not applied before.
unfoldable pub apply_event :
    User → WaijaEvent → Option CasinoGame → Converted → Wallet → Action Wallet
unfolding move_cash record_event
apply_event user e game converted wallet = do
  moved ← if skips_cash e then pure wallet else move_cash user e.action converted.0 wallet
  record_event user e game converted
  pure moved

unfoldable pub handle_waija_wallet_event : WaijaEvent → Action Money
unfolding resolve_waija_user convert_usd_to_wallet_currency lock_wallet apply_event in_usd
handle_waija_wallet_event e = do
  user ← resolve_waija_user e.username
  game ← gets (game_of e.game_uid)
  converted ← gets (λ s. convert_usd_to_wallet_currency s.fx_config user e.amount)
  wallet ← atomic do
    wallet ← lock_wallet user.id
    applied ← gets (has_call e.call_id)
    (if applied then pure wallet else apply_event user e game converted wallet)
  in_usd user wallet.balance
