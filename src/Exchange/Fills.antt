-- ===== src/Exchange/Fills.antt =====
-- `_settle_fill` and `_void_fill`. A price counts 0.01, so the profit counts a hundredth of the wallet's
-- unit. The two wallets are one object where both orders are one user's, so the change of each is
-- given as a pair and a shared wallet takes both.
use quickpaybet.Prelude.{ℕ, Bool, true, false, some, ◌==◌, if◌then◌else◌}
use quickpaybet.Prelude.Int.{ℤ, pos, ◌+ℤ◌, ◌-ℤ◌, ◌*ℤ◌, neg}
use quickpaybet.Prelude.Decimal.{quantize, by_sign, half_even}
use quickpaybet.Prelude.Table.{get_row, put_row}
use quickpaybet.Models.Money.{Money, Percent, Column, store}
use quickpaybet.Models.Sports.{Selection, same_selection}
use quickpaybet.Models.Wallets.{Wallet, TxnType}
use quickpaybet.Models.Exchange.{
  Side, back, lay, ExchangeOrder, ExchangeFill, FillStatus, is_pending_fill,
}
use quickpaybet.Action.{
  Action, Done, atomic, gets, modify, pure, or_raise, does_not_exist, ◌>>=◌, ◌>>◌,
}
use quickpaybet.Wallet.Ledger.{lock_wallet, save_wallet, record_transaction}
use quickpaybet.Cashback.Credit.{credit_cashback_for_loss}
use quickpaybet.Bets.Commission.{user_row}
use quickpaybet.Exchange.Matching.{exposure}

-- What a settlement adds to a wallet's balance and reservation, in hundredths of the unit.
pub record Change : Type 0 where
  pub balance : ℤ
  pub reserved : ℤ

unfoldable pub apply_change : ⦃c : Column⦄ → Change → Wallet → Wallet
apply_change x w = record w {
  balance = store (w.balance *ℤ pos 100 +ℤ x.balance) 100;
  reserved_balance = store (w.reserved_balance *ℤ pos 100 +ℤ x.reserved) 100;
}

unfoldable pub add_changes : Change → Change → Change
add_changes x y = record { balance = x.balance +ℤ y.balance; reserved = x.reserved +ℤ y.reserved }

-- The money of a fill: the winner's gross profit, which is the loser's loss, and the commission.
unfoldable pub profit_of : Bool → ExchangeFill → ℤ
profit_of back_won f = if back_won then f.stake *ℤ (f.odds -ℤ pos 100) else f.stake *ℤ pos 100

-- `(profit * commission_rate / 100).quantize(Decimal('0.00000001'))`
unfoldable pub commission_of : ℤ → Percent → Money
unfolding by_sign half_even
commission_of profit rate = quantize (profit *ℤ rate) 1000000

unfoldable pub net_profit : ℤ → Money → ℤ
net_profit profit commission = profit -ℤ commission *ℤ pos 100

-- The change of each side: released by its own order's odds, paid by the fill's.
unfoldable pub side_change : Bool → Side → ExchangeOrder → ExchangeFill → Percent → Change
unfolding exposure profit_of commission_of net_profit
side_change won side order f rate =
    let gross = profit_of (elim side [ back ↦ won | lay ↦ (if won then false else true) ]) f in
    record {
      balance = if won then net_profit gross (commission_of gross rate) else neg gross;
      reserved = neg (exposure side order.odds f.stake);
    }

unfoldable pub fill_row : ℕ → Action ExchangeFill
fill_row k = do or_raise (← gets (λ s. get_row ExchangeFill.id k s.fills)) does_not_exist

unfoldable pub order_row : ℕ → Action ExchangeOrder
order_row k = do or_raise (← gets (λ s. get_row ExchangeOrder.id k s.orders)) does_not_exist

-- The two wallets as the code holds them after its assignments.
unfoldable pub changed_wallets : ⦃c : Column⦄ → Wallet → Change → Wallet → Change → Wallet × Wallet
unfolding apply_change add_changes
changed_wallets wb xb wl xl =
    if wb.user == wl.user
    then (apply_change (add_changes xb xl) wb, apply_change (add_changes xb xl) wb)
    else (apply_change xb wb, apply_change xl wl)

unfoldable pub won_or_lost : Bool → TxnType
won_or_lost won = if won then TxnType.exchange_won else TxnType.exchange_lost

unfoldable pub settle_pending_fill : ⦃c : Column⦄ → ExchangeFill → Selection → Percent → Action Done
unfolding order_row lock_wallet save_wallet record_transaction user_row changed_wallets won_or_lost
    side_change
settle_pending_fill f result rate = do
  back_order ← order_row f.back_order
  lay_order ← order_row f.lay_order
  back_wallet ← lock_wallet back_order.user
  lay_wallet ← lock_wallet lay_order.user
  let back_won = same_selection f.selection result
  let lay_won = if back_won then false else true
  let xb = side_change back_won back back_order f rate
  let xl = side_change lay_won lay lay_order f rate
  let ws = changed_wallets back_wallet xb lay_wallet xl
  save_wallet ws.0
  save_wallet ws.1
  record_transaction ws.0 (won_or_lost back_won) (store xb.balance 100)
  record_transaction ws.1 (won_or_lost lay_won) (store xl.balance 100)
  modify (λ s. record s {
    fills =
        put_row ExchangeFill.id
          (record f {
            status = if back_won then FillStatus.back_won else FillStatus.lay_won;
            commission_amount = some (commission_of (profit_of back_won f) rate);
          })
          s.fills;
  })
  loser ← user_row (if back_won then lay_order.user else back_order.user)
  credit_cashback_for_loss loser (profit_of back_won f) 100

unfoldable pub settle_fill : ⦃c : Column⦄ → ℕ → Selection → Percent → Action Done
unfolding fill_row settle_pending_fill
settle_fill k result rate = atomic do
  f ← fill_row k
  (if is_pending_fill f.status then settle_pending_fill f result rate else pure tt)

abbrev pub release_of : Side → ExchangeOrder → ExchangeFill → Change
release_of side order f = record {
  balance = pos 0;
  reserved = neg (exposure side order.odds f.stake);
}

-- `wallets[…].reserved_balance -= …; w.save(update_fields=['reserved_balance', …])`
unfoldable pub void_pending_fill : ⦃c : Column⦄ → ExchangeFill → Action Done
unfolding order_row lock_wallet save_wallet changed_wallets exposure
void_pending_fill f = do
  back_order ← order_row f.back_order
  lay_order ← order_row f.lay_order
  back_wallet ← lock_wallet back_order.user
  lay_wallet ← lock_wallet lay_order.user
  let ws =
      changed_wallets back_wallet (release_of back back_order f) lay_wallet
        (release_of lay lay_order f)
  save_wallet ws.0
  save_wallet ws.1
  modify (λ s. record s {
    fills = put_row ExchangeFill.id (record f { status = FillStatus.void }) s.fills;
  })

unfoldable pub void_fill : ⦃c : Column⦄ → ℕ → Action Done
unfolding fill_row void_pending_fill
void_fill k =
    atomic do f ← fill_row k; (if is_pending_fill f.status then void_pending_fill f else pure tt)
