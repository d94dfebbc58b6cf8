-- ===== src/Bets/Money.antt =====
-- The tables of bets and parlays under what moves money between wallets.
use quickpaybet.Prelude.{ℕ, Bool, true, false, Option, none, some, List, if◌then◌else◌}
use quickpaybet.Prelude.Int.{ℤ}
use quickpaybet.Models.Money.{Money, Column}
use quickpaybet.Models.Accounts.{User}
use quickpaybet.Models.Wallets.{Wallet, TxnType}
use quickpaybet.Models.Cashback.{CashbackCredit}
use quickpaybet.Models.Bets.{Bet, ParlayBet}
use quickpaybet.Models.Database.{Database}
use quickpaybet.Action.{pure, ◌>>=◌}
use quickpaybet.Action.Triple.{
  Ends, Keeps, keeps_rules, Keeps-modify, Keeps-bind, Keeps-gets, Keeps-atomic,
}
use quickpaybet.Wallet.Ledger.{lock_wallet, save_wallet, record_transaction, post, wallet_of}
use quickpaybet.Cashback.Credit.{credited, apply_credit, apply_if, credit_cashback_for_loss}
use quickpaybet.Bets.Commission.{
  user_row, pay_into, pay_parent, pay_parent_of, credit_affiliate_commission,
  credit_affiliate_commission_on_parlay,
}

-- Any property of the two tables.
module _ (F : List Bet → List ParlayBet → Type 0) where
  abbrev pub OnSlips : Database → Type 0
  OnSlips t = F t.bets t.parlays

  pub lock_wallet-Keeps : (u : ℕ) → Keeps OnSlips (lock_wallet u)
  unfolding lock_wallet
  lock_wallet-Keeps u = search keeps_rules

  pub user_row-Keeps : (u : ℕ) → Keeps OnSlips (user_row u)
  unfolding user_row
  user_row-Keeps u = search keeps_rules

  save_wallet-Keeps : (w : Wallet) → Keeps OnSlips (save_wallet w)
  unfolding save_wallet
  save_wallet-Keeps w = Keeps-modify _ (λ t h. h)

  record_transaction-Keeps :
      (w : Wallet) (kind : TxnType) (amount : Money)
      → Keeps OnSlips (record_transaction w kind amount)
  unfolding record_transaction
  record_transaction-Keeps w kind amount = Keeps-modify _ (λ t h. h)

  apply_credit-Keeps : (x : CashbackCredit) → Keeps OnSlips (apply_credit x)
  unfolding apply_credit
  apply_credit-Keeps x = Keeps-atomic _ (
      Keeps-bind _ _ (lock_wallet-Keeps _) λ w. Keeps-bind _ _ (save_wallet-Keeps _) λ _.
        Keeps-bind _ _ (Keeps-modify _ (λ t h. h)) λ _. record_transaction-Keeps (credited x w) _ _)

  apply_if-Keeps : (o : Option CashbackCredit) → Keeps OnSlips (apply_if o)
  apply_if-Keeps none = search keeps_rules
  apply_if-Keeps (some x) = apply_credit-Keeps x

  module _ ⦃c : Column⦄ where
    pub post-Keeps : (kind : TxnType) (n : ℤ) (d : ℕ) (w : Wallet) → Keeps OnSlips (post kind n d w)
    unfolding post
    post-Keeps kind n d w = search (keeps_rules, save_wallet-Keeps, record_transaction-Keeps)

    pub credit_cashback_for_loss-Keeps :
        (user : User) (n : ℤ) (d : ℕ) → Keeps OnSlips (credit_cashback_for_loss user n d)
    unfolding credit_cashback_for_loss
    credit_cashback_for_loss-Keeps user n d =
        Keeps-bind _ _ (Keeps-gets _) (λ config. apply_if-Keeps _)

    pay_into-Keeps :
        (o : Option Wallet) (stake : Money) (parent : User)
        → Keeps OnSlips (pay_into o stake parent)
    pay_into-Keeps none stake parent = search keeps_rules
    pay_into-Keeps (some w) stake parent = post-Keeps _ _ _ _

    pay_parent-Ends :
        (stake : Money) (parent : User) (s : Database) (b : Bool)
        → OnSlips s
        → Ends OnSlips
            (λ _. OnSlips)
            (if b then pure tt s else pay_into (wallet_of parent.id s) stake parent s)
    unfolding pure
    pay_parent-Ends stake parent s true h = h
    pay_parent-Ends stake parent s false h =
        (pay_into-Keeps (wallet_of parent.id s) stake parent).run s h

    pay_parent-Keeps : (stake : Money) (parent : User) → Keeps OnSlips (pay_parent stake parent)
    unfolding pay_parent
    pay_parent-Keeps stake parent = record { run = λ s h. pay_parent-Ends stake parent s _ h }

    go_parent :
        (o : Option ℕ) (stake : Money)
        → Keeps OnSlips
            (elim o [ none ↦ pure tt | some p ↦ user_row p >>= λ parent. pay_parent stake parent ])
    go_parent none stake = search keeps_rules
    go_parent (some p) stake =
        Keeps-bind _ _ (user_row-Keeps p) (λ parent. pay_parent-Keeps stake parent)

    pub commission-Keeps :
        (user : User) (bet : Bet) → Keeps OnSlips (credit_affiliate_commission user bet)
    unfolding credit_affiliate_commission pay_parent_of
    commission-Keeps user bet = go_parent user.parent bet.stake

    pub parlay_commission-Keeps :
        (user : User) (parlay : ParlayBet)
        → Keeps OnSlips (credit_affiliate_commission_on_parlay user parlay)
    unfolding credit_affiliate_commission_on_parlay pay_parent_of
    parlay_commission-Keeps user parlay = go_parent user.parent parlay.stake
