-- ===== src/Exchange/Orders.antt =====
-- `place_order` and `cancel_order`, and the statements by which `_match_order` stores its loop.
use quickpaybet.Prelude.{
  ℕ, suc, Bool, not, Option, none, some, List, [], ◌∷◌, length, ◌==◌, is_some, if◌then◌else◌,
}
use quickpaybet.Prelude.Int.{ℤ, pos, ◌+ℤ◌, ◌-ℤ◌, ◌*ℤ◌, leb_ℤ, ltb_ℤ}
use quickpaybet.Prelude.Table.{get_row, put_row}
use quickpaybet.Models.Money.{Money, Odds, Column, store}
use quickpaybet.Models.Accounts.{User}
use quickpaybet.Models.Sports.{Match, Selection, home, draw, away, is_open_for_betting}
use quickpaybet.Models.Wallets.{Wallet, available_balance}
use quickpaybet.Models.Exchange.{
  Side, back, lay, OrderStatus, ExchangeOrder, ExchangeFill, FillStatus, is_open, unmatched_stake,
}
use quickpaybet.Models.Database.{Database}
use quickpaybet.Action.{
  Action, Done, ok, atomic, gets, modify, or_raise, raise_if, odds_too_low, stake_not_positive,
  invalid_selection, invalid_side, match_not_found, no_draw_market, betting_closed,
  insufficient_available_balance, order_not_found, cannot_cancel, fully_matched, ◌>>=◌, ◌>>◌,
}
use quickpaybet.Wallet.Ledger.{lock_wallet, save_wallet}
use quickpaybet.Cashback.Wager.{record_wager}
use quickpaybet.Exchange.Matching.{exposure, resting_for, Trade, match_loop}

-- `wallet.reserved_balance += n / 100` units, as the column stores it
abbrev pub add_to_reserved : ⦃c : Column⦄ → ℤ → Wallet → Wallet
add_to_reserved n w = record w { reserved_balance = store (w.reserved_balance *ℤ pos 100 +ℤ n) 100 }

-- `resting.save(…)` for each resting order
unfoldable pub save_orders : List ExchangeOrder → List ExchangeOrder → List ExchangeOrder
save_orders [] table = table
save_orders (o ∷ os) table = save_orders os (put_row ExchangeOrder.id o table)

abbrev pub fill_of : ExchangeOrder → ℕ → Trade → ExchangeFill
fill_of o k t = record {
  id = k;
  match_id = o.match_id;
  selection = o.selection;
  back_order = elim o.side [ back ↦ o.id | lay ↦ t.maker.id ];
  lay_order = elim o.side [ back ↦ t.maker.id | lay ↦ o.id ];
  odds = t.maker.odds;
  stake = t.stake;
  status = FillStatus.pending;
  commission_amount = none;
}

-- `ExchangeFill.objects.create(…)` for each trade; the table stands newest first.
unfoldable pub create_fills : ExchangeOrder → List Trade → List ExchangeFill → List ExchangeFill
create_fills o [] table = table
create_fills o (t ∷ ts) table = create_fills o ts (fill_of o (suc (length table)) t ∷ table)

-- The order comes back as the loop leaves it.
unfoldable pub match_order : ExchangeOrder → Action ExchangeOrder
unfolding save_orders create_fills
match_order o s =
    let done = match_loop o (resting_for o s.orders) in
    (
      ok done.taker,
      record s {
        orders = put_row ExchangeOrder.id done.taker (save_orders done.makers s.orders);
        fills = create_fills o done.trades s.fills;
      },
    )

abbrev pub new_order : ℕ → Match → Selection → Side → Odds → Money → Database → ExchangeOrder
new_order user m selection side odds stake s = record {
  id = suc (length s.orders);
  user = user;
  match_id = m.id;
  selection = selection;
  side = side;
  odds = odds;
  stake = stake;
  matched_stake = pos 0;
  status = OrderStatus.opened;
  created_at = s.now;
}

-- `selection == DRAW and match.odds_draw is None`
abbrev pub lacks_draw : Match → Selection → Bool
lacks_draw m home = Bool.false
lacks_draw m away = Bool.false
lacks_draw m draw = not (is_some m.odds_draw)

unfoldable pub place_order :
    ⦃c : Column⦄ → User → ℕ → Option Selection → Option Side → Odds → Money → Action ExchangeOrder
unfolding lock_wallet save_wallet match_order
place_order user match_id selection side odds stake = do
  raise_if (leb_ℤ odds (pos 100)) odds_too_low
  raise_if (leb_ℤ stake (pos 0)) stake_not_positive
  sel ← or_raise selection invalid_selection
  sd ← or_raise side invalid_side
  m ← or_raise (← gets (λ s. get_row Match.id match_id s.matches)) match_not_found
  raise_if (lacks_draw m sel) no_draw_market
  raise_if (not (is_open_for_betting m.status)) betting_closed
  atomic do
    wallet ← lock_wallet user.id
    raise_if (ltb_ℤ (available_balance wallet *ℤ pos 100) (exposure sd odds stake))
        insufficient_available_balance
    let reserved = add_to_reserved (exposure sd odds stake) wallet
    save_wallet reserved
    record_wager reserved stake
    order ← gets (new_order user.id m sel sd odds stake)
    modify (λ s. record s { orders = order ∷ s.orders })
    match_order order

abbrev pub own_order : ℕ → ℕ → List ExchangeOrder → Option ExchangeOrder
own_order user k orders = elim (get_row ExchangeOrder.id k orders) [
  | none ↦ none
  | some o ↦ if o.user == user then some o else none
]

unfoldable pub cancel_order : ⦃c : Column⦄ → User → ℕ → Action Done
unfolding lock_wallet save_wallet unmatched_stake
cancel_order user order_id = atomic do
  order ← or_raise (← gets (λ s. own_order user.id order_id s.orders)) order_not_found
  raise_if (not (is_open order.status)) cannot_cancel
  raise_if (leb_ℤ (unmatched_stake order) (pos 0)) fully_matched
  wallet ← lock_wallet user.id
  save_wallet
      (add_to_reserved (pos 0 -ℤ exposure order.side order.odds (unmatched_stake order)) wallet)
  modify (λ s. record s {
    orders = put_row ExchangeOrder.id (record order { status = OrderStatus.cancelled }) s.orders;
  })
