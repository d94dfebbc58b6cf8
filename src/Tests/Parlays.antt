-- ===== src/Tests/Parlays.antt =====
-- A parlay with a lost leg, settled twice.
use quickpaybet.Prelude.{◌≡◌, refl, [], ◌∷◌}
use quickpaybet.Prelude.Int.{pos, ◌+ℤ◌, ◌*ℤ◌}
use quickpaybet.Prelude.Table.{get_row, put_row}
use quickpaybet.Prelude.Decimal.{by_sign, half_even}
use quickpaybet.Models.Sports.{home}
use quickpaybet.Models.Bets.{ParlayLeg, BetStatus}
use quickpaybet.Models.Database.{Database}
use quickpaybet.Action.{◌>>=◌, ◌▸◌, returns, ok}
use quickpaybet.Cashback.Settings.{get_effective_settings}
use quickpaybet.Cashback.Credit.{credit_cashback_for_loss, cashback_for, wagering_for}
use quickpaybet.Bets.Commission.{credit_affiliate_commission_on_parlay}
use quickpaybet.Bets.ParlaySettle.{settle_parlay_if_ready, lose_parlay, verdict}
use quickpaybet.Bets.Verdict.{verdict-worst, worst}
use quickpaybet.Bets.Once.{settle_parlay_once}
use quickpaybet.Tests.HalfEven.{half_even_column}
use quickpaybet.Tests.Data.{units}
use quickpaybet.Tests.Services.{funded}

abbrev pick : ParlayLeg
pick = record {
  parlay = 1;
  match_id = 7;
  selection = home;
  odds = pos 215;
  outcome = BetStatus.won;
}

abbrev missed : ParlayLeg
missed = record pick { match_id = 8; outcome = BetStatus.lost }

verdict-worst_example : verdict (pick ∷ missed ∷ []) ≡ worst (pick ∷ missed ∷ [])
verdict-worst_example = verdict-worst pick (missed ∷ [])

abbrev ready : Database
ready = record funded {
  parlays =
      record {
        id = 1;
        user = 1;
        stake = units 50;
        total_odds = pos 322;
        potential_payout = units 161;
        status = BetStatus.pending;
      }
      ∷ [];
  legs = pick ∷ missed ∷ [];
}

lost_parlay : returns (settle_parlay_if_ready ⦃c = half_even_column⦄ 1) ready ≡ ok tt
unfolding settle_parlay_if_ready ◌>>=◌ verdict lose_parlay credit_affiliate_commission_on_parlay
    credit_cashback_for_loss get_effective_settings cashback_for wagering_for get_row put_row
    by_sign half_even ◌*ℤ◌ ◌+ℤ◌ half_even_column
lost_parlay = refl

settle_parlay_once_example :
    let settle = settle_parlay_if_ready ⦃c = half_even_column⦄ 1 in
    ready ▸ settle ▸ settle ≡ ready ▸ settle
settle_parlay_once_example = settle_parlay_once ⦃c = half_even_column⦄ 1 ready lost_parlay
