-- ===== src/Exchange/Settle.antt =====
-- `settle_exchange_for_match`
use quickpaybet.Prelude.{ℕ, ◌&&◌, Option, none, some, List, [], ◌∷◌, select, ◌==◌, if◌then◌else◌}
use quickpaybet.Prelude.Int.{pos, ◌-ℤ◌, leb_ℤ}
use quickpaybet.Prelude.Table.{put_row}
use quickpaybet.Models.Money.{Column, Percent}
use quickpaybet.Models.Sports.{Match, MatchStatus, scheduled, live, finished, cancelled, Selection}
use quickpaybet.Models.Exchange.{
  ExchangeOrder, ExchangeFill, OrderStatus, is_open, is_pending_fill, unmatched_stake,
}
use quickpaybet.Models.Database.{Database}
use quickpaybet.Action.{Action, Done, atomic, gets, modify, pure, ◌>>=◌, ◌>>◌}
use quickpaybet.Wallet.Ledger.{lock_wallet, save_wallet}
use quickpaybet.Bets.ParlaySettle.{result_of}
use quickpaybet.Exchange.Matching.{exposure}
use quickpaybet.Exchange.Orders.{add_to_reserved}
use quickpaybet.Exchange.Fills.{order_row, settle_fill, void_fill}

abbrev fill_ids : List ExchangeFill → List ℕ
fill_ids [] = []
fill_ids (f ∷ fs) = f.id ∷ fill_ids fs

abbrev order_ids : List ExchangeOrder → List ℕ
order_ids [] = []
order_ids (o ∷ os) = o.id ∷ order_ids os

abbrev pub pending_fill_ids : Match → Database → List ℕ
pending_fill_ids m s =
    fill_ids (select (λ f. f.match_id == m.id && is_pending_fill f.status) s.fills)

abbrev pub open_order_ids : Match → Database → List ℕ
open_order_ids m s = order_ids (select (λ o. o.match_id == m.id && is_open o.status) s.orders)

unfoldable pub void_fills : ⦃c : Column⦄ → List ℕ → Action Done
void_fills [] = pure tt
void_fills (k ∷ ks) = do void_fill k; void_fills ks

unfoldable pub settle_fills : ⦃c : Column⦄ → List ℕ → Selection → Percent → Action Done
settle_fills [] result rate = pure tt
settle_fills (k ∷ ks) result rate = do settle_fill k result rate; settle_fills ks result rate

-- Releases what an order has left unmatched, if anything.
unfoldable pub release_remainder : ⦃c : Column⦄ → ExchangeOrder → Action Done
unfolding lock_wallet save_wallet
release_remainder o = if leb_ℤ (unmatched_stake o) (pos 0) then pure tt else (do
  wallet ← lock_wallet o.user
  save_wallet (add_to_reserved (pos 0 -ℤ exposure o.side o.odds (unmatched_stake o)) wallet))

unfoldable pub mark_order : ExchangeOrder → OrderStatus → Action Done
mark_order o status =
    modify
      (λ s. record s { orders = put_row ExchangeOrder.id (record o { status = status }) s.orders })

unfoldable pub close_order : ⦃c : Column⦄ → ℕ → OrderStatus → Action Done
unfolding release_remainder mark_order
close_order k status = atomic do
  o ← order_row k
  (if is_open o.status then release_remainder o >> mark_order o status else pure tt)

unfoldable pub close_orders : ⦃c : Column⦄ → List ℕ → OrderStatus → Action Done
close_orders [] status = pure tt
close_orders (k ∷ ks) status = do close_order k status; close_orders ks status

abbrev pub close_book : ⦃c : Column⦄ → Match → OrderStatus → Action Done
close_book m status = do ids ← gets (open_order_ids m); close_orders ids status

abbrev pub settle_finished : ⦃c : Column⦄ → Match → Option Selection → Action Done
settle_finished m none = pure tt
settle_finished m (some result) = do
  rate ← gets (λ s. s.exchange_config.commission_rate)
  ids ← gets (pending_fill_ids m)
  settle_fills ids result rate
  close_book m OrderStatus.settled

abbrev pub exchange_by_status : ⦃c : Column⦄ → Match → MatchStatus → Action Done
exchange_by_status m scheduled = pure tt
exchange_by_status m live = pure tt
exchange_by_status m cancelled = do
  ids ← gets (pending_fill_ids m)
  void_fills ids
  close_book m OrderStatus.void
exchange_by_status m finished = settle_finished m (result_of m)

unfoldable pub settle_exchange_for_match : ⦃c : Column⦄ → Match → Action Done
settle_exchange_for_match m = exchange_by_status m m.status
