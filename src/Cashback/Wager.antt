-- ===== src/Cashback/Wager.antt =====
-- `record_wager`: every locked credit of the wallet's user advances by the whole stake. The table of
-- credits is kept in the rows' default order, newest first.
use quickpaybet.Prelude.{
  Bool, true, false, ◌&&◌, none, some, List, [], ◌∷◌, ◌++◌, ◌==◌, if◌then◌else◌,
}
use quickpaybet.Prelude.Int.{pos, ◌+ℤ◌, ◌-ℤ◌, neg, leb_ℤ, ltb_ℤ, min_ℤ, max_ℤ}
use quickpaybet.Prelude.Table.{get_row, put_row}
use quickpaybet.Models.Money.{Money}
use quickpaybet.Models.Wallets.{Wallet, WalletTransaction, TxnType, TxnStatus}
use quickpaybet.Models.Cashback.{CashbackCredit, CreditStatus, is_locked}
use quickpaybet.Action.{Action, ok}

-- What the loop has done: the wallet in memory, the credits, the ledger rows that were created, and
-- `wallet_changed`.
pub record Wagered : Type 0 where
  pub wallet : Wallet
  pub credits : List CashbackCredit
  pub entries : List WalletTransaction
  pub wallet_changed : Bool

-- `credit.wagering_progress = min(credit.wagering_required, credit.wagering_progress + amount)`
unfoldable pub advance : Money → CashbackCredit → CashbackCredit
advance amount c = record c {
  wagering_progress = min_ℤ c.wagering_required (c.wagering_progress +ℤ amount);
}

abbrev pub is_cleared : CashbackCredit → Bool
is_cleared c = leb_ℤ c.wagering_required c.wagering_progress

-- The wallet after a credit clears: unlocked, and clawed back down to zero at most.
unfoldable pub release : CashbackCredit → Wallet → Wallet
release c w = record w {
  locked_cashback_balance = w.locked_cashback_balance -ℤ c.cashback_amount;
  balance =
      if c.deduct_original_on_unlock
      then max_ℤ (w.balance -ℤ c.cashback_amount) (pos 0)
      else w.balance;
}

-- The clawback's ledger row, if anything was deducted.
unfoldable pub clawback : Wallet → Wallet → List WalletTransaction
clawback w w' =
    if ltb_ℤ (pos 0) (w.balance -ℤ w'.balance)
    then record {
      wallet = w.user;
      txn_type = TxnType.cashback_clawback;
      amount = neg (w.balance -ℤ w'.balance);
      status = TxnStatus.completed;
      balance_after = w'.balance;
    }
      ∷ []
    else []

-- One round of the loop, before the rest of the credits.
unfoldable pub settle_credit : Money → CashbackCredit → Wallet → CashbackCredit × Wallet × Bool
unfolding advance release
settle_credit amount c w =
    let c' = advance amount c in
    if is_cleared c'
    then (record c' { status = CreditStatus.unlocked }, release c w, true)
    else (c', w, false)

-- The loop reads the locked credits of the wallet's user.
unfoldable pub wager_step : Money → CashbackCredit → Wallet → CashbackCredit × Wallet × Bool
unfolding settle_credit
wager_step amount c w =
    if is_locked c.status && c.user == w.user then settle_credit amount c w else (c, w, false)

unfoldable pub wager_credits : Money → Wallet → List CashbackCredit → Wagered
wager_credits amount w [] = record {
  wallet = w;
  credits = [];
  entries = [];
  wallet_changed = false;
}
wager_credits amount w (c ∷ cs) =
    let (c', w', cleared) = wager_step amount c w in
    let rest = wager_credits amount w' cs in
    record {
      wallet = rest.wallet;
      credits = c' ∷ rest.credits;
      entries = clawback w w' ++ rest.entries;
      wallet_changed = if cleared then true else rest.wallet_changed;
    }

-- `wallet.save(update_fields=['balance', 'locked_cashback_balance', 'updated_at'])`
abbrev pub save_balances : Wallet → List Wallet → List Wallet
save_balances w ws = elim (get_row Wallet.user w.user ws) [
  | none ↦ ws
  | some row ↦
      put_row Wallet.user
        (record row { balance = w.balance; locked_cashback_balance = w.locked_cashback_balance }) ws
]

-- The wallet comes back as the caller's object holds it afterwards.
unfoldable pub record_wager : Wallet → Money → Action Wallet
record_wager w amount s =
    let done = wager_credits amount w s.credits in
    if leb_ℤ amount (pos 0) then (ok w, s) else (
      ok done.wallet,
      record s {
        wallets = if done.wallet_changed then save_balances done.wallet s.wallets else s.wallets;
        credits = done.credits;
        transactions = s.transactions ++ done.entries;
      },
    )
