-- ===== src/Bets/Settle.antt =====
-- `settle_bet` and `refund_bet`
use quickpaybet.Prelude.{if◌then◌else◌}
use quickpaybet.Prelude.Int.{◌*ℤ◌}
use quickpaybet.Prelude.Table.{put_row}
use quickpaybet.Models.Money.{Column}
use quickpaybet.Models.Sports.{Selection, same_selection}
use quickpaybet.Models.Wallets.{TxnType}
use quickpaybet.Models.Bets.{Bet, BetStatus, is_pending}
use quickpaybet.Action.{Action, Done, atomic, modify, pure, ◌>>=◌, ◌>>◌}
use quickpaybet.Wallet.Ledger.{lock_wallet, post}
use quickpaybet.Cashback.Credit.{credit_cashback_for_loss}
use quickpaybet.Bets.Commission.{user_row, credit_affiliate_commission}

-- `bet.status = …; bet.save(update_fields=['status', 'updated_at'])`
unfoldable pub mark_bet : Bet → BetStatus → Action Done
mark_bet bet status =
    modify (λ s. record s { bets = put_row Bet.id (record bet { status = status }) s.bets })

unfoldable pub win_bet : ⦃c : Column⦄ → Bet → Action Done
unfolding lock_wallet post mark_bet
win_bet bet = do
  wallet ← lock_wallet bet.user
  post TxnType.bet_won (bet.stake *ℤ bet.odds) 100 wallet
  mark_bet bet BetStatus.won

unfoldable pub lose_bet : ⦃c : Column⦄ → Bet → Action Done
unfolding lock_wallet mark_bet user_row
lose_bet bet = do
  lock_wallet bet.user
  mark_bet bet BetStatus.lost
  user ← user_row bet.user
  credit_affiliate_commission user bet
  credit_cashback_for_loss user bet.stake 1

unfoldable pub settle_bet : ⦃c : Column⦄ → Bet → Selection → Action Done
settle_bet bet result =
    if is_pending bet.status
    then (if same_selection bet.selection result then win_bet bet else lose_bet bet)
    else pure tt

unfoldable pub refund_bet : ⦃c : Column⦄ → Bet → Action Done
unfolding lock_wallet post mark_bet
refund_bet bet =
    if is_pending bet.status
    then atomic (do
      wallet ← lock_wallet bet.user
      post TxnType.bet_refund bet.stake 1 wallet
      mark_bet bet BetStatus.refunded)
    else pure tt
