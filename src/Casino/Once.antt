-- ===== src/Casino/Once.antt =====
-- What a wallet event is to do, on players that know nothing of the database: for each user what the
-- wallet holds, and for each call id whether it was applied.
use quickpaybet.Prelude.{
  ℕ, Bool, true, false, ◌||◌, Option, none, some, List, [], ◌∷◌, if◌then◌else◌, ◌==◌,
}
use quickpaybet.Prelude.Int.{◌+ℤ◌, ◌-ℤ◌, ltb_ℤ}
use quickpaybet.Prelude.Table.{get_row}
use quickpaybet.Models.Money.{Money}
use quickpaybet.Models.Accounts.{User}
use quickpaybet.Models.Wallets.{Wallet, FxRateConfig}
use quickpaybet.Models.Payments.{Text}
use quickpaybet.Models.Casino.{EventAction, debit, credit}
use quickpaybet.Models.Database.{Database}
use quickpaybet.Wallet.Ledger.{wallet_of}
use quickpaybet.Wallet.Rates.{convert_usd_to_wallet_currency}
use quickpaybet.Casino.Seamless.{WaijaEvent, has_call}

pub record Players : Type 0 where
  pub users : List User
  pub fx : FxRateConfig
  pub wallet : ℕ → Option Wallet
  pub applied : Text → Bool

abbrev pub players : Database → Players
players s = record {
  users = s.users;
  fx = s.fx_config;
  wallet = λ u. wallet_of u s;
  applied = λ k. has_call k s;
}

-- The wallet after an event: a free round's debit takes nothing, another debit at most what is not reserved.
abbrev pub enter : EventAction → Bool → Money → Wallet → Option Wallet
enter debit true a w = some w
enter debit false a w =
    if ltb_ℤ (w.balance -ℤ w.reserved_balance) a
    then none
    else some (record w { balance = w.balance -ℤ a })
enter credit free a w = some (record w { balance = w.balance +ℤ a })

-- A refused event leaves the players as they were, and its call id open.
abbrev pub mark : Text → ℕ → Option Wallet → Players → Players
mark k u none x = x
mark k u (some v) x = record x {
  wallet = λ i. if u == i then some v else x.wallet i;
  applied = λ j. (k == j) || x.applied j;
}

abbrev pub player_of : Option ℕ → List User → Option User
player_of none users = none
player_of (some u) users = get_row User.id u users

abbrev pub enter_wallet : WaijaEvent → User → Option Wallet → Players → Players
enter_wallet e user none x = x
enter_wallet e user (some w) x =
    let a = (convert_usd_to_wallet_currency x.fx user e.amount).0 in
    mark e.call_id user.id (enter e.action e.is_bonus_fs a w) x

abbrev pub enter_player : WaijaEvent → Option User → Players → Players
enter_player e none x = x
enter_player e (some user) x = enter_wallet e user (x.wallet user.id) x

-- The specification: an event enters its player's account once.
unfoldable pub enter_once : WaijaEvent → Players → Players
enter_once e x = if x.applied e.call_id then x else enter_player e (player_of e.username x.users) x

unfoldable pub enter_all : List WaijaEvent → Players → Players
enter_all [] x = x
enter_all (e ∷ es) x = enter_all es (enter_once e x)
