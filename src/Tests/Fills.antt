-- ===== src/Tests/Fills.antt =====
-- A fill that is settled, with the loser's cashback, and the fills of an order beside its reservation.
use quickpaybet.Prelude.{ℕ, ◌≡◌, refl, [], ◌∷◌, All, arith}
use quickpaybet.Prelude.Int.{pos, ◌*ℤ◌, ◌-ℤ◌}
use quickpaybet.Prelude.Table.{get_row}
use quickpaybet.Models.Sports.{home, same_selection}
use quickpaybet.Models.Wallets.{Wallet}
use quickpaybet.Models.Database.{Database}
use quickpaybet.Action.{ok, returns, ◌▸◌}
use quickpaybet.Exchange.Matching.{match_loop, resting_for}
use quickpaybet.Exchange.Fills.{profit_of, settle_fill}
use quickpaybet.Exchange.Conserved.{Pair, Conserved, settle_fill-conserves}
use quickpaybet.Exchange.Reserve.{BothCovered, match_loop-BothCovered}
use quickpaybet.Tests.HalfEven.{half_even_column}
use quickpaybet.Tests.Data.{units, bettor, agent, fresh}
use quickpaybet.Tests.Market.{taker, maker, fill, table}

abbrev purse_of : ℕ → Wallet
purse_of u = record {
  user = u;
  balance = units 500;
  reserved_balance = units 100;
  locked_cashback_balance = pos 0;
}

abbrev market : Database
market = record fresh {
  wallets = purse_of 1 ∷ purse_of 2 ∷ [];
  orders = taker ∷ maker ∷ [];
  fills = fill ∷ [];
}

profit-whole : profit_of (same_selection home home) fill ≡ units 36 *ℤ pos 100
unfolding profit_of ◌*ℤ◌ ◌-ℤ◌
profit-whole = refl

pair : Pair market 1 fill taker maker (purse_of 1) (purse_of 2)
unfolding get_row
pair = record {
  fill_found = refl;
  waits = refl;
  back_found = refl;
  lay_found = refl;
  back_wallet = refl;
  lay_wallet = refl;
  back_user = (bettor, refl);
  lay_user = (agent, refl);
  two_users = λ e. omega (arith, e);
}

settle_fill-conserves_example :
    (returns (settle_fill ⦃c = half_even_column⦄ 1 home (pos 200)) market ≡ ok tt)
    × Conserved market 1
        (purse_of 1)
        (purse_of 2)
        (market ▸ settle_fill ⦃c = half_even_column⦄ 1 home (pos 200))
settle_fill-conserves_example =
    settle_fill-conserves ⦃c = half_even_column⦄ market 1 fill taker maker (purse_of 1) (purse_of 2)
      home (pos 200) (units 36) pair profit-whole

match_loop-BothCovered_example :
    All (BothCovered taker 8 (pos 200)) (match_loop taker (resting_for taker table)).trades
match_loop-BothCovered_example = match_loop-BothCovered taker table 8 (pos 200)
