-- ===== src/Models/Bets.antt =====
-- backend/apps/bets/models.py
use quickpaybet.Prelude.{ℕ, Bool, true, false}
use quickpaybet.Models.Money.{Money, Odds}
use quickpaybet.Models.Sports.{Selection}

-- `Bet.Status`, `ParlayBet.Status` and `ParlayLeg.Outcome` have the same four values.
pub data BetStatus : Type 0 where
  pending won lost refunded : BetStatus

abbrev pub is_pending : BetStatus → Bool
is_pending pending = true
is_pending won = false
is_pending lost = false
is_pending refunded = false

abbrev pub is_won : BetStatus → Bool
is_won won = true
is_won pending = false
is_won lost = false
is_won refunded = false

abbrev pub is_lost : BetStatus → Bool
is_lost lost = true
is_lost pending = false
is_lost won = false
is_lost refunded = false

abbrev pub is_refunded : BetStatus → Bool
is_refunded refunded = true
is_refunded pending = false
is_refunded won = false
is_refunded lost = false

pub record Bet : Type 0 where
  pub id : ℕ
  pub user : ℕ
  pub match_id : ℕ
  pub selection : Selection
  pub odds : Odds
  pub stake : Money
  pub potential_payout : Money
  pub status : BetStatus

pub record ParlayBet : Type 0 where
  pub id : ℕ
  pub user : ℕ
  pub stake : Money
  pub total_odds : Odds
  pub potential_payout : Money
  pub status : BetStatus

pub record ParlayLeg : Type 0 where
  pub parlay : ℕ
  pub match_id : ℕ
  pub selection : Selection
  pub odds : Odds
  pub outcome : BetStatus
