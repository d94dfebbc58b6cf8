-- ===== src/Bets/ParlaySettle.antt =====
-- `_settle_parlay_if_ready` and `settle_parlays_for_match`
use quickpaybet.Prelude.{
  ℕ, Bool, true, false, ◌&&◌, Option, none, some, List, [], ◌∷◌, any, every, select, update, ◌==◌,
  ltb, if◌then◌else◌,
}
use quickpaybet.Prelude.Table.{get_row, put_row}
use quickpaybet.Models.Money.{Column, Money}
use quickpaybet.Models.Sports.{
  Match, MatchStatus, scheduled, live, finished, cancelled, Selection, home, draw, away,
  same_selection,
}
use quickpaybet.Models.Wallets.{TxnType}
use quickpaybet.Models.Bets.{
  ParlayBet, ParlayLeg, BetStatus, is_pending, is_won, is_lost, is_refunded,
}
use quickpaybet.Models.Database.{Database}
use quickpaybet.Action.{
  Action, Done, atomic, gets, modify, or_raise, pure, does_not_exist, ◌>>=◌, ◌>>◌,
}
use quickpaybet.Wallet.Ledger.{lock_wallet, post}
use quickpaybet.Cashback.Credit.{credit_cashback_for_loss}
use quickpaybet.Bets.Commission.{user_row, credit_affiliate_commission_on_parlay}

-- What the outcomes of a parlay's legs decide; `pending` is "not ready", or no legs at all.
unfoldable pub verdict : List ParlayLeg → BetStatus
verdict legs =
    if any (λ l. is_pending l.outcome) legs
    then BetStatus.pending
    else if any (λ l. is_lost l.outcome) legs
    then BetStatus.lost
    else if any (λ l. is_refunded l.outcome) legs
    then BetStatus.refunded
    else elim legs [
      | [] ↦ BetStatus.pending
      | l ∷ rest ↦
          if every (λ l. is_won l.outcome) (l ∷ rest) then BetStatus.won else BetStatus.pending
    ]

unfoldable pub mark_parlay : ParlayBet → BetStatus → Action Done
mark_parlay parlay status =
    modify (λ s. record s {
      parlays = put_row ParlayBet.id (record parlay { status = status }) s.parlays;
    })

unfoldable pub lose_parlay : ⦃c : Column⦄ → ParlayBet → Action Done
unfolding mark_parlay user_row
lose_parlay parlay = do
  mark_parlay parlay BetStatus.lost
  user ← user_row parlay.user
  credit_affiliate_commission_on_parlay user parlay
  credit_cashback_for_loss user parlay.stake 1

-- `wallet.balance += amount`, its ledger row, and the parlay's new status
unfoldable pub pay_parlay : ⦃c : Column⦄ → ParlayBet → TxnType → Money → BetStatus → Action Done
unfolding lock_wallet post mark_parlay
pay_parlay parlay kind amount status = do
  wallet ← lock_wallet parlay.user
  post kind amount 1 wallet
  mark_parlay parlay status

abbrev pub carry_out : ⦃c : Column⦄ → ParlayBet → BetStatus → Action Done
carry_out parlay BetStatus.pending = pure tt
carry_out parlay BetStatus.lost = lose_parlay parlay
carry_out parlay BetStatus.refunded =
    pay_parlay parlay TxnType.bet_refund parlay.stake BetStatus.refunded
carry_out parlay BetStatus.won =
    pay_parlay parlay TxnType.bet_won parlay.potential_payout BetStatus.won

abbrev pub legs_of : ParlayBet → Database → List ParlayLeg
legs_of parlay s = select (λ l. l.parlay == parlay.id) s.legs

-- `if parlay.status != PENDING: return`
abbrev pub settle_pending : ⦃c : Column⦄ → ParlayBet → Bool → Action Done
settle_pending parlay true = do legs ← gets (legs_of parlay); carry_out parlay (verdict legs)
settle_pending parlay false = pure tt

unfoldable pub settle_parlay_if_ready : ⦃c : Column⦄ → ℕ → Action Done
settle_parlay_if_ready parlay_id = atomic do
  parlay ← or_raise (← gets (λ s. get_row ParlayBet.id parlay_id s.parlays)) does_not_exist
  settle_pending parlay (is_pending parlay.status)

-- Home, away or draw, by the scores.
unfoldable pub match_result : ℕ → ℕ → Selection
match_result h a = if ltb a h then home else if ltb h a then away else draw

abbrev pub result_of : Match → Option Selection
result_of m = elim m.home_score [
  | none ↦ none
  | some h ↦ elim m.away_score [ none ↦ none | some a ↦ some (match_result h a) ]
]

abbrev pub is_pending_leg_of : Match → ParlayLeg → Bool
is_pending_leg_of m l = l.match_id == m.id && is_pending l.outcome

abbrev pub mark_legs : Match → (ParlayLeg → BetStatus) → Database → Database
mark_legs m f s = record s {
  legs = update (is_pending_leg_of m) (λ l. record l { outcome = f l }) s.legs;
}

abbrev pub leg_outcome : Selection → ParlayLeg → BetStatus
leg_outcome result l = if same_selection l.selection result then BetStatus.won else BetStatus.lost

abbrev pub legs_by_result : Match → Option Selection → Action Bool
legs_by_result m none = pure false
legs_by_result m (some result) = modify (mark_legs m (leg_outcome result)) >> pure true

abbrev pub legs_by_status : Match → MatchStatus → Action Bool
legs_by_status m scheduled = pure true
legs_by_status m live = pure true
legs_by_status m finished = legs_by_result m (result_of m)
legs_by_status m cancelled = modify (mark_legs m (λ l. BetStatus.refunded)) >> pure true

-- The first block: marks the legs, and says whether the second part is reached.
unfoldable pub settle_legs : Match → Action Bool
unfolding match_result
settle_legs m = legs_by_status m m.status

-- `set(…)`, each id once
abbrev pub distinct : List ℕ → List ℕ
distinct [] = []
distinct (k ∷ ks) = let rest = distinct ks in if any (λ j. j == k) rest then rest else k ∷ rest

abbrev pub parlay_ids : List ParlayLeg → List ℕ
parlay_ids [] = []
parlay_ids (l ∷ ls) = l.parlay ∷ parlay_ids ls

unfoldable pub settle_parlays : ⦃c : Column⦄ → List ℕ → Action Done
settle_parlays [] = pure tt
settle_parlays (k ∷ ks) = do settle_parlay_if_ready k; settle_parlays ks

-- `if not legs.exists(): return`
abbrev pub settle_some : List ParlayLeg → Match → Action Bool
settle_some [] m = pure false
settle_some (l ∷ ls) m = settle_legs m

unfoldable pub settle_parlays_for_match : ⦃c : Column⦄ → Match → Action Done
settle_parlays_for_match m = do
  legs ← gets (λ s. select (is_pending_leg_of m) s.legs)
  let affected = distinct (parlay_ids legs)
  reached ← settle_some legs m
  (if reached then settle_parlays affected else pure tt)
