-- ===== src/Casino/Rounds.antt =====
-- `handle_round_settlement`. The callback's numbers come parsed: an account that is no number is
-- `none`, and an amount counts its column's last place.
use quickpaybet.Prelude.{ℕ, Bool, ◌&&◌, Option, none, some, ◌∷◌, any, find, ◌==◌, if◌then◌else◌}
use quickpaybet.Prelude.Int.{pos, ◌+ℤ◌, ◌*ℤ◌, leb_ℤ}
use quickpaybet.Prelude.Decimal.{quantize}
use quickpaybet.Prelude.Table.{get_row}
use quickpaybet.Models.Money.{Money}
use quickpaybet.Models.Accounts.{User}
use quickpaybet.Models.Wallets.{TxnType}
use quickpaybet.Models.Payments.{Text}
use quickpaybet.Models.Casino.{CasinoGame, CasinoSession, is_open_session}
use quickpaybet.Models.Database.{Database}
use quickpaybet.Action.{
  Action, Done, atomic, gets, modify, pure, or_raise, unknown_member, unknown_game, no_open_session,
  ◌>>=◌, ◌>>◌,
}
use quickpaybet.Wallet.Ledger.{lock_wallet, save_wallet, record_transaction}
use quickpaybet.Wallet.Rates.{convert_usd_to_wallet_currency}

pub record Settlement : Type 0 where
  pub member_account : Option ℕ
  pub game_uid : Text
  pub bet_amount : Money
  pub win_amount : Money
  pub credit_amount : Option Money
  pub serial_number : Text

abbrev pub member_of : Option ℕ → Database → Option User
member_of none s = none
member_of (some u) s = get_row User.id u s.users

abbrev pub game_of : Text → Database → Option CasinoGame
game_of uid s = find (λ g. g.game_uid == uid) s.games

-- `.filter(user=…, game=…, status=OPEN).order_by('-launched_at').first()`
abbrev pub open_session : ℕ → ℕ → Database → Option CasinoSession
open_session u g s = find (λ x. x.user == u && x.game == g && is_open_session x.status) s.sessions

abbrev pub has_serial : Text → Database → Bool
has_serial k s = any (λ r. r.provider_serial_number == k) s.round_settlements

-- `(win_amount / session.fx_rate_applied).quantize(…)`
abbrev pub win_in_usd : Money → CasinoSession → Money
win_in_usd win session = quantize (win *ℤ pos 10000) session.fx_rate_applied

unfoldable pub record_round : CasinoSession → Settlement → Action Done
record_round session r = modify λ s. record s {
  round_settlements =
      record {
        session = session.id;
        provider_serial_number = r.serial_number;
        bet_amount = r.bet_amount;
        win_amount = r.win_amount;
        credit_amount_reported = r.credit_amount;
      }
      ∷ s.round_settlements;
}

-- Nothing is credited for a round without a win.
unfoldable pub credit_win : ℕ → Money → Action Done
unfolding lock_wallet save_wallet record_transaction
credit_win u amount = if leb_ℤ amount (pos 0) then pure tt else (do
  wallet ← lock_wallet u
  let paid = record wallet { balance = wallet.balance +ℤ amount }
  save_wallet paid
  record_transaction paid TxnType.casino_win amount)

unfoldable pub apply_round : User → CasinoSession → Settlement → Action Done
unfolding convert_usd_to_wallet_currency record_round credit_win
apply_round user session r = do
  (amount, currency, rate) ←
      gets λ s. convert_usd_to_wallet_currency s.fx_config user (win_in_usd r.win_amount session)
  record_round session r
  credit_win user.id amount

unfoldable pub handle_round_settlement : Settlement → Action Done
unfolding apply_round
handle_round_settlement r = do
  user ← or_raise (← gets (member_of r.member_account)) unknown_member
  game ← or_raise (← gets (game_of r.game_uid)) unknown_game
  atomic do
    session ← or_raise (← gets (open_session user.id game.id)) no_open_session
    processed ← gets (has_serial r.serial_number)
    (if processed then pure tt else apply_round user session r)
