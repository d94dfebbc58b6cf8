-- ===== src/Tests/Data.antt =====
-- A small platform, for the tests: two users, one match, an empty ledger.
use quickpaybet.Prelude.{ℕ, ◌*◌, refl, true, false, none, some, [], ◌∷◌}
use quickpaybet.Prelude.Int.{pos}
use quickpaybet.Prelude.Table.{get_row}
use quickpaybet.Models.Money.{Money}
use quickpaybet.Models.Accounts.{Role, User, pkr}
use quickpaybet.Models.Sports.{Match, scheduled, finished, BackMode, LayMode, ResolvedPricingMode}
use quickpaybet.Models.Database.{Database}
use quickpaybet.Soundness.Invariant.{Sound}

-- Whole units of a wallet's currency.
abbrev pub units : ℕ → Money
units n = pos (n * 100000000)

abbrev pub bettor : User
bettor = record {
  id = 1;
  role = Role.user;
  is_staff = false;
  is_superuser = false;
  currency = pkr;
  parent = some 2;
  commission_rate = pos 0;
  min_bet_amount = some (units 10);
  max_bet_amount = some (units 50000);
  is_betting_enabled = true;
  cashback_enabled_override = none;
  cashback_rate_override = none;
  cashback_wagering_multiplier_override = none;
  is_house_account = false;
  odds_adjustment_override = none;
  lay_spread_override = none;
}

-- The agent of the bettor earns 2.5 % of its losing stakes.
abbrev pub agent : User
agent = record bettor { id = 2; parent = none; commission_rate = pos 250 }

abbrev pub api_pricing : ResolvedPricingMode
api_pricing = record {
  back_mode = BackMode.api;
  back_custom_value_home = none;
  back_custom_value_draw = none;
  back_custom_value_away = none;
  lay_mode = LayMode.api_lay;
  lay_relative_delta = none;
  lay_custom_value_home = none;
  lay_custom_value_draw = none;
  lay_custom_value_away = none;
}

abbrev pub derby : Match
derby = record {
  id = 7;
  status = scheduled;
  home_score = none;
  away_score = none;
  odds_home = some (pos 215);
  odds_draw = some (pos 320);
  odds_away = some (pos 345);
  lay_spread_override = none;
  house_max_liability_override = none;
}

-- The match ends 0 : 2.
abbrev pub played : Match
played = record derby { status = finished; home_score = some 0; away_score = some 2 }

abbrev pub fresh : Database
fresh = record {
  users = bettor ∷ agent ∷ [];
  matches = derby ∷ [];
  odds_overrides = [];
  pricing_overrides = [];
  house_config = record {
    is_enabled = true;
    default_lay_spread = pos 2;
    default_max_liability_per_selection = units 1000;
    default_pricing = api_pricing;
  };
  fx_config = record { usd_pkr_rate = pos 2785000; is_manual_override = false };
  wallets = [];
  transactions = [];
  cashback_config = record {
    is_enabled = true;
    default_rate = pos 500;
    default_wagering_multiplier = pos 300;
    deduct_original_on_unlock = true;
  };
  credits = [];
  bets = [];
  parlays = [];
  legs = [];
  exchange_config = record { commission_rate = pos 200 };
  orders = [];
  fills = [];
  payments = [];
  packages = [];
  claims = [];
  casino_config = record {
    is_enabled = true;
    max_launch_balance = pos 10000;
    provider_currency_code = 0;
    usd_to_provider_currency_rate = 10000;
  };
  games = [];
  sessions = [];
  round_settlements = [];
  wallet_events = [];
  viewers = [];
  now = 0;
}

pub fresh-Sound : Sound fresh
unfolding get_row
fresh-Sound = record {
  reconciled = record { at = λ u. (refl, refl) };
  locked = λ u. refl;
  nonneg = tt;
}
