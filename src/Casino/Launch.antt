-- ===== src/Casino/Launch.antt =====
-- `launch_game`
use quickpaybet.Prelude.{
  ℕ, suc, Bool, not, ◌&&◌, ◌*◌, Option, none, some, ◌∷◌, length, if◌then◌else◌,
}
use quickpaybet.Prelude.Int.{ℤ, pos, ◌+ℤ◌, ◌-ℤ◌, ◌*ℤ◌, neg, leb_ℤ, ltb_ℤ}
use quickpaybet.Prelude.Decimal.{quantize}
use quickpaybet.Models.Money.{Money}
use quickpaybet.Models.Accounts.{User, Currency}
use quickpaybet.Models.Wallets.{Wallet, TxnType, available_balance}
use quickpaybet.Models.Payments.{Text}
use quickpaybet.Models.Casino.{CasinoConfig, CasinoGame, CasinoSession, SessionStatus}
use quickpaybet.Models.Database.{Database}
use quickpaybet.Action.{
  Action, Done, atomic, gets, modify, pure, raise, or_raise, raise_if, amount_not_positive,
  insufficient_available_balance, casino_disabled, game_unavailable, launch_too_high,
  casino_launch_failed, ◌>>=◌, ◌>>◌,
}
use quickpaybet.Wallet.Ledger.{lock_wallet, save_wallet, record_transaction}
use quickpaybet.Wallet.Rates.{convert_usd_to_wallet_currency}

-- What a casino provider (backend/apps/casino/providers.py) answers to one launch: an address to play
-- at, or an exception. The balance that it is given counts 0.01.
pub record CasinoProvider : Type 0 where
  pub requires_upfront_balance : Bool
  pub play_address : ℕ → ℤ → Text → Text → Option Text

-- The wallet's side of a session: the amount, its currency and the rate.
abbrev pub Converted : Type 0
Converted = Money × Currency × ℤ

abbrev new_session :
    User → CasinoGame → CasinoConfig → Money → ℤ → Converted → Database → CasinoSession
new_session user game config usd provider_amount (amount, currency, rate) s = record {
  id = suc (length s.sessions);
  user = user.id;
  game = game.id;
  opened_balance_usd = usd;
  opened_balance_provider_currency = provider_amount;
  provider_currency_code = config.provider_currency_code;
  fx_rate_applied = config.usd_to_provider_currency_rate;
  wallet_amount = amount;
  wallet_currency = currency;
  wallet_fx_rate_applied = rate;
  status = SessionStatus.opened;
}

-- `CasinoSession.objects.create(…)`, newest first
unfoldable pub create_session :
    User → CasinoGame → CasinoConfig → Money → ℤ → Converted → Action Done
create_session user game config usd provider_amount converted = modify λ s. record s {
  sessions = new_session user game config usd provider_amount converted s ∷ s.sessions;
}

abbrev pub reserve : Money → Wallet → Wallet
reserve a w = record w { reserved_balance = w.reserved_balance +ℤ a }

abbrev pub unreserve : Money → Wallet → Wallet
unreserve a w = record w { reserved_balance = w.reserved_balance -ℤ a }

unfoldable pub reserve_launch : ℕ → Money → Action Done
unfolding lock_wallet save_wallet available_balance
reserve_launch u a = atomic do
  wallet ← lock_wallet u
  raise_if (ltb_ℤ (available_balance wallet) a) insufficient_available_balance
  save_wallet (reserve a wallet)

unfoldable pub release_launch : ℕ → Money → Action Done
unfolding lock_wallet save_wallet
release_launch u a = atomic do wallet ← lock_wallet u; save_wallet (unreserve a wallet)

-- The real debit.
unfoldable pub debit_launch : User → CasinoGame → CasinoConfig → Money → ℤ → Converted → Action Done
unfolding lock_wallet save_wallet create_session record_transaction
debit_launch user game config usd provider_amount converted = atomic do
  wallet ← lock_wallet user.id
  let released = unreserve converted.0 wallet
  let paid = record released { balance = released.balance -ℤ converted.0 }
  save_wallet paid
  create_session user game config usd provider_amount converted
  record_transaction paid TxnType.casino_session_open (neg converted.0)

-- What follows the provider's answer.
unfoldable pub finish_launch :
    User → CasinoGame → CasinoConfig → Money → ℤ → Converted → Option Text → Action Text
unfolding release_launch debit_launch
finish_launch user game config usd provider_amount converted none = do
  release_launch user.id converted.0
  raise casino_launch_failed
finish_launch user game config usd provider_amount converted (some url) = do
  debit_launch user game config usd provider_amount converted
  pure url

unfoldable pub launch_seamless : CasinoProvider → User → CasinoGame → CasinoConfig → Action Text
unfolding create_session convert_usd_to_wallet_currency
launch_seamless provider user game config = do
  url ←
      or_raise (provider.play_address user.id (pos 0) game.game_uid config.provider_currency_code)
        casino_launch_failed
  (amount, currency, rate) ← gets (λ s. convert_usd_to_wallet_currency s.fx_config user (pos 0))
  create_session user game config (pos 0) (pos 0) (pos 0, user.currency, rate)
  pure url

-- `(requested_usd_amount * rate).quantize(Decimal('0.01'))`
abbrev pub in_provider_currency : CasinoConfig → Money → ℤ
in_provider_currency config usd =
    quantize (usd *ℤ pos config.usd_to_provider_currency_rate) (10000 * 1000000)

unfoldable pub launch_upfront :
    CasinoProvider → User → CasinoGame → CasinoConfig → Money → Action Text
unfolding convert_usd_to_wallet_currency reserve_launch finish_launch
launch_upfront provider user game config usd = do
  raise_if (leb_ℤ usd (pos 0)) amount_not_positive
  raise_if (ltb_ℤ (config.max_launch_balance *ℤ pos 1000000) usd) launch_too_high
  let provider_amount = in_provider_currency config usd
  converted ← gets (λ s. convert_usd_to_wallet_currency s.fx_config user usd)
  reserve_launch user.id converted.0
  finish_launch user game config usd provider_amount converted
      (provider.play_address user.id provider_amount game.game_uid config.provider_currency_code)

-- No amount is refused like one that is not above zero.
unfoldable pub launch_with :
    CasinoProvider → User → CasinoGame → CasinoConfig → Option Money → Action Text
unfolding launch_upfront
launch_with provider user game config none = raise amount_not_positive
launch_with provider user game config (some usd) = launch_upfront provider user game config usd

unfoldable pub launch_game : CasinoProvider → User → CasinoGame → Option Money → Action Text
unfolding launch_seamless launch_with
launch_game provider user game usd = do
  config ← gets (λ s. s.casino_config)
  raise_if (not config.is_enabled) casino_disabled
  raise_if (not (game.is_active && game.brand_is_active)) game_unavailable
  (if provider.requires_upfront_balance
      then launch_with provider user game config usd
      else launch_seamless provider user game config)
