-- ===== src/Exchange/CashOut.antt =====
-- `cash_out_order`
use quickpaybet.Prelude.{ℕ, Bool, false, not, ◌&&◌, Option, none, some, List, ◌∷◌, if◌then◌else◌}
use quickpaybet.Prelude.Int.{ℤ, pos, pos_part, ◌+ℤ◌, ◌-ℤ◌, ◌*ℤ◌, leb_ℤ, ltb_ℤ, min_ℤ, max_ℤ}
use quickpaybet.Prelude.Decimal.{quantize}
use quickpaybet.Prelude.Table.{get_row, put_row}
use quickpaybet.Models.Money.{Money, Odds, Column, store}
use quickpaybet.Models.Accounts.{User}
use quickpaybet.Models.Sports.{Match, is_open_for_betting}
use quickpaybet.Models.Wallets.{Wallet, available_balance}
use quickpaybet.Models.Exchange.{
  Side, opposite, ExchangeOrder, OrderStatus, is_open, unmatched_stake,
}
use quickpaybet.Models.Database.{Database}
use quickpaybet.Action.{
  Action, Done, atomic, gets, modify, pure, or_raise, raise_if, order_not_found, cannot_cash_out,
  nothing_matched, closed_for_cash_out, does_not_exist, division_by_zero, ◌>>=◌, ◌>>◌,
}
use quickpaybet.Pricing.Adjust.{is_zero}
use quickpaybet.Wallet.Ledger.{lock_wallet}
use quickpaybet.Cashback.Wager.{record_wager}
use quickpaybet.Exchange.Matching.{exposure, exposure_rate}
use quickpaybet.Exchange.Orders.{own_order, new_order, match_order}
use quickpaybet.Exchange.Walk.{
  CashOutStatus, no_liquidity, full, partial, CashOutWalk, cash_out_target_notional,
  resting_book_for_cash_out, simulate_cash_out_walk, cash_out_guaranteed_value,
}

pub record CashedOut : Type 0 where
  pub status : CashOutStatus
  pub matched_amount : Money
  pub estimated_value : Option Money

abbrev no_cash_out : CashedOut
no_cash_out = record { status = no_liquidity; matched_amount = pos 0; estimated_value = none }

-- `wallet.save(update_fields=['reserved_balance', …])` of `n / 100` units: the other columns stay as
-- they are stored.
abbrev set_reserved : ⦃c : Column⦄ → ℕ → ℤ → List Wallet → List Wallet
set_reserved u n ws = elim (get_row Wallet.user u ws) [
  | none ↦ ws
  | some row ↦ put_row Wallet.user (record row { reserved_balance = store n 100 }) ws
]

unfoldable pub save_reserved : ⦃c : Column⦄ → ℕ → ℤ → Action Done
save_reserved u n = modify (λ s. record s { wallets = set_reserved u n s.wallets })

-- The stake of the leg, and whether it still reaches the target.
pub record Sized : Type 0 where
  pub stake : Money
  pub reached_target : Bool

-- Capped to what the available balance covers.
unfoldable pub size_leg : Side → Odds → Money → CashOutWalk → Action Sized
unfolding exposure_rate exposure
size_leg side worst available walk =
    let rate = exposure_rate side worst in
    let affordable = quantize (available *ℤ pos 100) (pos_part rate) in
    if ltb_ℤ (available *ℤ pos 100) (exposure side worst walk.stake)
    then (do
      raise_if (is_zero rate) division_by_zero
      pure (record { stake = max_ℤ (pos 0) (min_ℤ walk.stake affordable); reached_target = false }))
    else pure (record { stake = walk.stake; reached_target = walk.reached_target })

-- Cancels what the leg left unmatched; `n / 100` units are reserved in memory, the leg included.
unfoldable pub drop_leftover : ⦃c : Column⦄ → ExchangeOrder → ℤ → Action Done
unfolding save_reserved
drop_leftover leg n =
    let left = unmatched_stake leg in
    if leb_ℤ left (pos 0) then pure tt else (do
      save_reserved leg.user (n -ℤ exposure leg.side leg.odds left)
      modify (λ s. record s {
        orders = put_row ExchangeOrder.id (record leg { status = OrderStatus.cancelled }) s.orders;
      }))

unfoldable pub cash_out_status : Money → Sized → CashOutStatus
cash_out_status matched sized =
    if leb_ℤ matched (pos 0)
    then no_liquidity
    else if leb_ℤ sized.stake matched && sized.reached_target
    then full
    else partial

abbrev value_if_full : CashOutStatus → ExchangeOrder → Money → Option Money
value_if_full full o matched = some (cash_out_guaranteed_value o matched)
value_if_full partial o matched = none
value_if_full no_liquidity o matched = none

-- Places the leg, and cancels what it leaves.
unfoldable pub place_leg :
    ⦃c : Column⦄ → User → Match → ExchangeOrder → Odds → Wallet → Sized → Action CashedOut
unfolding save_reserved match_order drop_leftover cash_out_status exposure
place_leg user m o worst wallet sized = do
  let side = opposite o.side
  let reserved = wallet.reserved_balance *ℤ pos 100 +ℤ exposure side worst sized.stake
  save_reserved user.id reserved
  record_wager wallet sized.stake
  leg ← gets (new_order user.id m o.selection side worst sized.stake)
  modify (λ s. record s { orders = leg ∷ s.orders })
  done ← match_order leg
  drop_leftover done reserved
  let status = cash_out_status done.matched_stake sized
  pure (record {
    status = status;
    matched_amount = done.matched_stake;
    estimated_value = value_if_full status o done.matched_stake;
  })

unfoldable pub cash_out_at :
    ⦃c : Column⦄ → User → Match → ExchangeOrder → CashOutWalk → Option Odds → Action CashedOut
unfolding lock_wallet size_leg place_leg available_balance
cash_out_at user m o walk none = pure no_cash_out
cash_out_at user m o walk (some worst) = do
  wallet ← lock_wallet user.id
  sized ← size_leg (opposite o.side) worst (available_balance wallet) walk
  (if leb_ℤ sized.stake (pos 0) then pure no_cash_out else place_leg user m o worst wallet sized)

abbrev walk_of : ExchangeOrder → Database → CashOutWalk
walk_of o s =
    simulate_cash_out_walk (cash_out_target_notional o s.fills)
      (resting_book_for_cash_out o s.orders)

unfoldable pub cash_out_order : ⦃c : Column⦄ → User → ℕ → Action CashedOut
unfolding cash_out_target_notional resting_book_for_cash_out simulate_cash_out_walk cash_out_at
cash_out_order user order_id = atomic do
  o ← or_raise (← gets (λ s. own_order user.id order_id s.orders)) order_not_found
  raise_if (not (is_open o.status)) cannot_cash_out
  raise_if (leb_ℤ o.matched_stake (pos 0)) nothing_matched
  m ← or_raise (← gets (λ s. get_row Match.id o.match_id s.matches)) does_not_exist
  raise_if (not (is_open_for_betting m.status)) closed_for_cash_out
  walk ← gets (walk_of o)
  cash_out_at user m o walk walk.worst_odds
