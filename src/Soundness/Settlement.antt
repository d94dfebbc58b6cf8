-- ===== src/Soundness/Settlement.antt =====
-- Settling and refunding single bets keeps the invariant.
use quickpaybet.Prelude.{ℕ, ◌≡◌, refl, Bool, true, false, Option, none, some, arith, if◌then◌else◌}
use quickpaybet.Models.Money.{Money, Column}
use quickpaybet.Models.Accounts.{User}
use quickpaybet.Models.Sports.{Selection}
use quickpaybet.Models.Wallets.{Wallet, TxnType}
use quickpaybet.Models.Bets.{Bet, ParlayBet, BetStatus}
use quickpaybet.Models.Database.{Database}
use quickpaybet.Action.{pure, ◌>>=◌}
use quickpaybet.Action.Triple.{
  Ends, Keeps, keeps_rules, bind-Triple, atomic-Triple, before, Keeps-bind, Keeps-modify,
  Keeps-pure, Keeps-if,
}
use quickpaybet.Wallet.Ledger.{wallet_of, lock_wallet}
use quickpaybet.Bets.Commission.{
  user_row, pay_parent, pay_parent_of, pay_into, credit_affiliate_commission,
  credit_affiliate_commission_on_parlay,
}
use quickpaybet.Bets.Settle.{mark_bet, win_bet, lose_bet, settle_bet, refund_bet}
use quickpaybet.Soundness.Invariant.{Sound}
use quickpaybet.Soundness.Statements.{
  found_self, lock-Triple, post_exact-Triple, post_rounded-Triple,
}
use quickpaybet.Soundness.Services.{credit_cashback_for_loss-Sound}

pub user_row-Sound : (u : ℕ) → Keeps Sound (user_row u)
unfolding user_row
user_row-Sound u = search keeps_rules

lock-Sound : (u : ℕ) → Keeps Sound (lock_wallet u)
unfolding lock_wallet
lock-Sound u = search keeps_rules

mark_bet-Sound : (bet : Bet) (status : BetStatus) → Keeps Sound (mark_bet bet status)
unfolding mark_bet
mark_bet-Sound bet status = Keeps-modify _ (λ s h. h)

module _ ⦃c : Column⦄ where
  pay_parent-Ends :
      (stake : Money) (parent : User) (s : Database) (b : Bool) (o : Option Wallet)
      → wallet_of parent.id s ≡ o
      → Sound s
      → Ends Sound (λ _. Sound) (if b then pure tt s else pay_into o stake parent s)
  unfolding pure
  pay_parent-Ends stake parent s true o e h = h
  pay_parent-Ends stake parent s false none e h = h
  pay_parent-Ends stake parent s false (some w) e h =
      (post_rounded-Triple TxnType.commission _ w 10000 (omega arith) refl).run s
        (h, (found_self s e).0)

  pay_parent-Sound : (stake : Money) (parent : User) → Keeps Sound (pay_parent stake parent)
  unfolding pay_parent
  pay_parent-Sound stake parent = record {
    run = λ s h. pay_parent-Ends stake parent s _ (wallet_of parent.id s) refl h;
  }

  go_parent :
      (o : Option ℕ) (stake : Money)
      → Keeps Sound
          (elim o [ none ↦ pure tt | some p ↦ user_row p >>= λ parent. pay_parent stake parent ])
  go_parent none stake = search keeps_rules
  go_parent (some p) stake =
      Keeps-bind _ _ (user_row-Sound p) (λ parent. pay_parent-Sound stake parent)

  pay_parent_of-Sound : (user : User) (stake : Money) → Keeps Sound (pay_parent_of user stake)
  unfolding pay_parent_of
  pay_parent_of-Sound user stake = go_parent user.parent stake

  commission-Sound : (user : User) (bet : Bet) → Keeps Sound (credit_affiliate_commission user bet)
  unfolding credit_affiliate_commission
  commission-Sound user bet = pay_parent_of-Sound user bet.stake

  pub parlay_commission-Sound :
      (user : User) (parlay : ParlayBet)
      → Keeps Sound (credit_affiliate_commission_on_parlay user parlay)
  unfolding credit_affiliate_commission_on_parlay
  parlay_commission-Sound user parlay = pay_parent_of-Sound user parlay.stake

  win_bet-Sound : (bet : Bet) → Keeps Sound (win_bet bet)
  unfolding win_bet
  win_bet-Sound bet = bind-Triple (lock-Triple bet.user) (λ w.
      bind-Triple
        (before (λ s h. h.0) (post_rounded-Triple TxnType.bet_won _ w 100 (omega arith) refl))
        (λ _. mark_bet-Sound bet BetStatus.won))

  lose_bet-Sound : (bet : Bet) → Keeps Sound (lose_bet bet)
  unfolding lose_bet
  lose_bet-Sound bet =
      search
        (
          keeps_rules, lock-Sound, mark_bet-Sound, user_row-Sound, commission-Sound,
          credit_cashback_for_loss-Sound,
        )
        depth 8

  -- Settling a bet, whichever way it goes and whether or not it is still pending.
  pub settle_bet-Sound : (bet : Bet) (result : Selection) → Keeps Sound (settle_bet bet result)
  unfolding settle_bet
  settle_bet-Sound bet result = search (keeps_rules, win_bet-Sound, lose_bet-Sound)

  -- Refunding a bet.
  pub refund_bet-Sound : (bet : Bet) → Keeps Sound (refund_bet bet)
  unfolding refund_bet
  refund_bet-Sound bet =
      Keeps-if _ _ _
        (atomic-Triple (λ s h. h)
          (bind-Triple (lock-Triple bet.user) (λ w.
            bind-Triple (before (λ s h. h.0) (post_exact-Triple TxnType.bet_refund bet.stake w))
              (λ _. mark_bet-Sound bet BetStatus.refunded))))
        (Keeps-pure tt)
