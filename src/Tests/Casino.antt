-- ===== src/Tests/Casino.antt =====
-- Casino callbacks and launches on small inputs.
use quickpaybet.Prelude.{◌≡◌, refl, true, false, none, some, [], ◌∷◌}
use quickpaybet.Prelude.Int.{pos, ◌*ℤ◌, ◌-ℤ◌, ◌+ℤ◌}
use quickpaybet.Prelude.Decimal.{by_sign, half_even}
use quickpaybet.Prelude.Table.{get_row, put_row}
use quickpaybet.Models.Wallets.{Wallet}
use quickpaybet.Models.Accounts.{usd, User}
use quickpaybet.Models.Casino.{CasinoGame, CasinoSession, SessionStatus, debit, credit}
use quickpaybet.Models.Database.{Database}
use quickpaybet.Action.{Error, ok, err, returns, ◌▸◌, ◌>>=◌}
use quickpaybet.Wallet.Ledger.{wallet_of}
use quickpaybet.Wallet.Rates.{convert_usd_to_wallet_currency}
use quickpaybet.Casino.Launch.{CasinoProvider, launch_game}
use quickpaybet.Casino.Rounds.{Settlement, handle_round_settlement}
use quickpaybet.Casino.Seamless.{WaijaEvent, handle_waija_wallet_event, skips_cash}
use quickpaybet.Casino.Applied.{handle_round_settlement-once}
use quickpaybet.Casino.Events.{
  Moved, in_wallet, handle_waija_wallet_event-once, handle_waija_wallet_event-moves,
}
use quickpaybet.Casino.Restored.{Restored, failed_launch_restores}
use quickpaybet.Casino.Once.{players, enter_once, enter_all}
use quickpaybet.Casino.Delivery.{deliver, deliver-players}
use quickpaybet.Tests.Data.{units, bettor, fresh}

abbrev roulette : CasinoGame
roulette = record {
  id = 4;
  game_uid = 40;
  is_active = true;
  brand_is_active = true;
  live_blur_region = none;
  ai_tracking_enabled = false;
  detected_blur_region = none;
  detected_blur_region_updated_at = none;
}

abbrev purse : Wallet
purse = record {
  user = 1;
  balance = units 100;
  reserved_balance = units 20;
  locked_cashback_balance = pos 0;
}

abbrev player : User
player = record bettor { currency = usd }

abbrev session : CasinoSession
session = record {
  id = 1;
  user = 1;
  game = 4;
  opened_balance_usd = units 10;
  opened_balance_provider_currency = pos 1000;
  provider_currency_code = 0;
  fx_rate_applied = 10000;
  wallet_amount = units 10;
  wallet_currency = usd;
  wallet_fx_rate_applied = pos 10000;
  status = SessionStatus.opened;
}

abbrev table : Database
table = record fresh {
  users = player ∷ [];
  wallets = purse ∷ [];
  games = roulette ∷ [];
  sessions = session ∷ [];
}

abbrev spin : WaijaEvent
spin = record {
  username = some 1;
  action = debit;
  amount = units 5;
  call_id = 71;
  round_id = 7;
  game_uid = 40;
  is_bonus_fs = false;
  is_rollback = false;
}

abbrev prize : WaijaEvent
prize = record spin { action = credit; amount = units 8; call_id = 72 }

spun : returns (handle_waija_wallet_event spin) table ≡ ok (units 95)
unfolding handle_waija_wallet_event ◌>>=◌ get_row put_row ◌-ℤ◌
spun = refl

handle_waija_wallet_event-once_example :
    let s' = table ▸ handle_waija_wallet_event spin in
    (returns (handle_waija_wallet_event spin) s' ≡ ok (units 95))
    × (s' ▸ handle_waija_wallet_event spin ≡ s')
handle_waija_wallet_event-once_example = handle_waija_wallet_event-once spin table (units 95) spun

player_found : get_row User.id 1 table.users ≡ some player
unfolding get_row
player_found = refl

purse_found : wallet_of 1 table ≡ some purse
unfolding get_row
purse_found = refl

handle_waija_wallet_event-moves_example :
    (v : Wallet) × (wallet_of 1 (table ▸ handle_waija_wallet_event spin) ≡ some v)
    × Moved (skips_cash spin) debit (in_wallet spin table player).0 purse v
handle_waija_wallet_event-moves_example =
    handle_waija_wallet_event-moves spin table (units 95) player purse player_found purse_found refl
      spun

deliver-players_example :
    players (deliver (spin ∷ prize ∷ spin ∷ prize ∷ []) table)
    ≡ enter_all (spin ∷ prize ∷ spin ∷ prize ∷ []) (players table)
deliver-players_example = deliver-players (spin ∷ prize ∷ spin ∷ prize ∷ []) table

-- Five out and eight in, once each.
entered_once :
    (enter_all (spin ∷ prize ∷ spin ∷ prize ∷ []) (players table)).wallet 1
    ≡ some (record purse { balance = units 103 })
unfolding enter_all enter_once get_row convert_usd_to_wallet_currency ◌+ℤ◌ ◌-ℤ◌
entered_once = refl

abbrev round : Settlement
round = record {
  member_account = some 1;
  game_uid = 40;
  bet_amount = units 2;
  win_amount = units 6;
  credit_amount = none;
  serial_number = 81;
}

settled_once : returns (handle_round_settlement round) table ≡ ok tt
unfolding handle_round_settlement ◌>>=◌ get_row put_row ◌*ℤ◌ by_sign half_even
settled_once = refl

handle_round_settlement-once_example :
    let s' = table ▸ handle_round_settlement round in
    (returns (handle_round_settlement round) s' ≡ ok tt) × (s' ▸ handle_round_settlement round ≡ s')
handle_round_settlement-once_example = handle_round_settlement-once round table settled_once

-- A provider that cannot be reached.
abbrev down : CasinoProvider
down = record { requires_upfront_balance = true; play_address = λ u b g c. none }

failed_launch_restores_example :
    let m = launch_game down player roulette (some (units 10)) in
    ((e : Error) × (returns m table ≡ err e)) × Restored table (table ▸ m)
failed_launch_restores_example =
    failed_launch_restores down player roulette (some (units 10)) table (λ b code. refl)
