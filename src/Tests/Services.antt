-- ===== src/Tests/Services.antt =====
-- A bet that is refused, and a parlay that is placed.
use quickpaybet.Prelude.{◌≡◌, refl, some, List, [], ◌∷◌}
use quickpaybet.Prelude.Int.{pos, ◌*ℤ◌, ◌-ℤ◌}
use quickpaybet.Prelude.Table.{get_row, put_row}
use quickpaybet.Models.Sports.{Match, home}
use quickpaybet.Models.Database.{Database}
use quickpaybet.Action.{◌>>=◌, ◌▸◌, returns, ok, err, insufficient_balance}
use quickpaybet.Cashback.Wager.{wager_credits}
use quickpaybet.Pricing.Effective.{get_effective_odds_for_user}
use quickpaybet.Pricing.Modes.{resolve_user_pricing_mode}
use quickpaybet.Bets.Place.{place_bet}
use quickpaybet.Bets.Parlay.{Item, place_parlay_bet, validate_items, validate_item}
use quickpaybet.Bets.Placed.{Placed, place_parlay_bet-Placed}
use quickpaybet.Platform.{Call, bet, perform}
use quickpaybet.Platform.Atomicity.{refused_call_changes_nothing}
use quickpaybet.Tests.HalfEven.{half_even_column}
use quickpaybet.Tests.Data.{units, bettor, derby, fresh}

abbrev cup : Match
cup = record derby { id = 8; odds_home = some (pos 150) }

-- The bettor has a hundred, and there are two matches.
abbrev pub funded : Database
funded = record fresh {
  matches = derby ∷ cup ∷ [];
  wallets =
      record {
        user = 1;
        balance = units 100;
        reserved_balance = pos 0;
        locked_cashback_balance = pos 0;
      }
      ∷ [];
}

abbrev too_much : Call
too_much = bet bettor 7 (some home) (units 400) (some (pos 215))

too_much_refused :
    returns (perform ⦃c = half_even_column⦄ too_much) funded ≡ err insufficient_balance
unfolding perform place_bet ◌>>=◌ get_row get_effective_odds_for_user resolve_user_pricing_mode ◌*ℤ◌
    ◌-ℤ◌
too_much_refused = refl

refused_call_changes_nothing_example : funded ▸ perform ⦃c = half_even_column⦄ too_much ≡ funded
refused_call_changes_nothing_example =
    refused_call_changes_nothing ⦃c = half_even_column⦄ too_much funded insufficient_balance refl
      too_much_refused

abbrev double : List Item
double =
    record { match_id = 7; selection = some home }
    ∷ record { match_id = 8; selection = some home }
    ∷ []

double_placed :
    returns (place_parlay_bet ⦃c = half_even_column⦄ bettor (units 50) double) funded ≡ ok tt
unfolding place_parlay_bet ◌>>=◌ validate_items validate_item get_row put_row
    get_effective_odds_for_user resolve_user_pricing_mode ◌*ℤ◌ ◌-ℤ◌ wager_credits
double_placed = refl

place_parlay_bet-Placed_example :
    Placed ⦃c = half_even_column⦄ funded 1
      (units 50)
      (funded ▸ place_parlay_bet ⦃c = half_even_column⦄ bettor (units 50) double)
place_parlay_bet-Placed_example =
    place_parlay_bet-Placed ⦃c = half_even_column⦄ bettor (units 50) double funded double_placed
