-- ===== src/Bets/MatchSettle.antt =====
-- `settle_bets_for_match`
use quickpaybet.Prelude.{ℕ, Bool, ◌&&◌, Option, none, some, List, [], ◌∷◌, select, ◌==◌}
use quickpaybet.Prelude.Table.{get_row}
use quickpaybet.Models.Money.{Column}
use quickpaybet.Models.Sports.{Match, MatchStatus, scheduled, live, finished, cancelled, Selection}
use quickpaybet.Models.Bets.{Bet, is_pending}
use quickpaybet.Models.Database.{Database}
use quickpaybet.Action.{Action, Done, atomic, gets, or_raise, pure, does_not_exist, ◌>>=◌, ◌>>◌}
use quickpaybet.Bets.Settle.{settle_bet, refund_bet}
use quickpaybet.Bets.ParlaySettle.{result_of, settle_parlays_for_match}

abbrev pub is_pending_on : Match → Bet → Bool
is_pending_on m b = b.match_id == m.id && is_pending b.status

abbrev pub bet_ids : List Bet → List ℕ
bet_ids [] = []
bet_ids (b ∷ bs) = b.id ∷ bet_ids bs

abbrev pub pending_bet_ids : Match → Database → List ℕ
pending_bet_ids m s = bet_ids (select (is_pending_on m) s.bets)

-- `Bet.objects.select_for_update().get(pk=bet_id)`
unfoldable pub lock_bet : ℕ → Action Bet
lock_bet k = do or_raise (← gets (λ s. get_row Bet.id k s.bets)) does_not_exist

unfoldable pub refund_bets : ⦃c : Column⦄ → List ℕ → Action Done
refund_bets [] = pure tt
refund_bets (k ∷ ks) = do
  atomic do bet ← lock_bet k; refund_bet bet
  refund_bets ks

unfoldable pub settle_bets : ⦃c : Column⦄ → List ℕ → Selection → Action Done
settle_bets [] result = pure tt
settle_bets (k ∷ ks) result = do
  atomic do bet ← lock_bet k; settle_bet bet result
  settle_bets ks result

abbrev pub settle_singles : ⦃c : Column⦄ → Match → Option Selection → Action Done
settle_singles m none = pure tt
settle_singles m (some result) = do ids ← gets (pending_bet_ids m); settle_bets ids result

abbrev pub settle_by_status : ⦃c : Column⦄ → Match → MatchStatus → Action Done
settle_by_status m scheduled = pure tt
settle_by_status m live = pure tt
settle_by_status m cancelled = do
  ids ← gets (pending_bet_ids m)
  refund_bets ids
  settle_parlays_for_match m
settle_by_status m finished = do settle_singles m (result_of m); settle_parlays_for_match m

unfoldable pub settle_bets_for_match : ⦃c : Column⦄ → Match → Action Done
settle_bets_for_match m = settle_by_status m m.status
