-- ===== src/Soundness/Wagers.antt =====
-- `record_wager`, as a stake is charged, and `credit_cashback_for_loss` keep the invariant.
use quickpaybet.Prelude.{
  ℕ, ◌≡◌, ◌≢◌, ◌∙◌, sym, ap, refl, Bool, true, false, some, List, [], ◌∷◌, ◌++◌, arith, ==_refl,
  Bool-cases, if◌then◌else◌, inl, inr, All-append,
}
use mathlib.Core.List.{append_assoc}
use quickpaybet.Prelude.Int.{
  pos, neg, parts, ◌+ℤ◌, ◌-ℤ◌, ◌≤ℤ◌, int_laws, +ℤ_zero, ltb_ℤ, leb_ℤ, ltb_ℤ→ge,
}
use quickpaybet.Prelude.Table.{get_row, put_row, get-put_self, put-put}
use quickpaybet.Models.Money.{Money}
use quickpaybet.Models.Wallets.{Wallet, WalletTransaction, TxnType, TxnStatus}
use quickpaybet.Models.Cashback.{CashbackCredit}
use quickpaybet.Models.Database.{Database}
use quickpaybet.Action.{ok, modify, ◌>>=◌, ◌>>◌}
use quickpaybet.Action.Triple.{
  Triple, Ends, Keeps, bind-Triple, raise_if-Triple, atomic-Triple, before,
}
use quickpaybet.Wallet.Ledger.{save_wallet, record_transaction}
use quickpaybet.Wallet.Reconciled.{Owned, total, roundings, total-append}
use quickpaybet.Cashback.Wager.{wager_credits, save_balances, record_wager}
use quickpaybet.Cashback.Locked.{
  locked_amount, locked_total, user-wager, locked-wager, locked-wager_other, wager_unchanged,
}
use quickpaybet.Cashback.Clawback.{Owned-wager, total-wager, IsNonneg-wager}
use quickpaybet.Cashback.Credit.{apply_credit, credited, locked_part}
use quickpaybet.Bets.Place.{charge_stake}
use quickpaybet.Soundness.Statements.{lock-Triple}
use quickpaybet.Soundness.Invariant.{IsSound, Sound, Held, change-IsSound}

-- The wallet's row after the wager of `amount`, where it was `w` before.
abbrev pub wagered : Money → Wallet → List CashbackCredit → Wallet
wagered amount w cs =
    let done = (wager_credits amount w cs).wallet in
    record w { balance = done.balance; locked_cashback_balance = done.locked_cashback_balance }

save_balances-found :
    (d row : Wallet) (ws : List Wallet)
    → get_row Wallet.user d.user ws ≡ some row
    → save_balances d ws
      ≡ put_row Wallet.user
          (record row { balance = d.balance; locked_cashback_balance = d.locked_cashback_balance })
          ws
save_balances-found d row ws e = rw (e, save_balances)

-- The save inside `record_wager` leaves that row in the table.
save-wagered :
    (amount : Money) (w : Wallet) (cs : List CashbackCredit) (ws : List Wallet) (row : Wallet)
    → get_row Wallet.user w.user ws ≡ some row
    → let done = wager_credits amount w cs in
      (if done.wallet_changed
        then save_balances done.wallet (put_row Wallet.user w ws)
        else put_row Wallet.user w ws)
      ≡ put_row Wallet.user (wagered amount w cs) ws
save-wagered amount w cs ws row found =
    elim (Bool-cases (wager_credits amount w cs).wallet_changed) [
      | inl e ↦ rw e (
          save_balances-found (wager_credits amount w cs).wallet w (put_row Wallet.user w ws) (
            ap (λ u. get_row Wallet.user u (put_row Wallet.user w ws)) (user-wager amount w cs)
            ∙ get-put_self Wallet.user w row ws found)
          ∙ put-put Wallet.user w (wagered amount w cs) ws refl)
      | inr e ↦ rw (e, wager_unchanged amount w cs e)
    ]

module _ {ws : List Wallet} {ts : List WalletTransaction} {cs : List CashbackCredit}
    (h : IsSound ws ts cs) where
  -- A wallet that is charged, wagers, and gets its ledger rows.
  pub wagered-IsSound :
      (w0 w : Wallet) (amount : Money) (es : List WalletTransaction)
      → get_row Wallet.user w.user ws ≡ some w0
      → w.balance ≡ w0.balance +ℤ total w.user es
      → w.locked_cashback_balance ≡ w0.locked_cashback_balance
      → pos 0 ≤ℤ w.balance
      → Owned w.user es
      → roundings w.user es ≡ 0
      → let done = wager_credits amount w cs in
        IsSound
          (put_row Wallet.user (wagered amount w cs) ws)
          (ts ++ (done.entries ++ es))
          done.credits
  wagered-IsSound w0 w amount es found balance locked nonneg owned exact =
      let done = wager_credits amount w cs in
      let own : w0.locked_cashback_balance ≡ locked_total w.user cs =
        rw found at (h.locked w.user) in
      let moved = parts (total-wager amount w cs nonneg h.nonneg) in
      change-IsSound h w0 (wagered amount w cs) (done.entries ++ es) done.credits found
        (All-append (λ (t : WalletTransaction). t.wallet ≡ w.user) done.entries es
          (Owned-wager amount w cs) owned)
        (rw total-append (omega (int_laws, moved, parts balance)))
        (rw total-append (omega (int_laws, moved, parts balance)))
        (omega (int_laws, parts (locked-wager amount w cs), parts (locked ∙ own)))
        (λ u ne. locked-wager_other amount u w cs ne) (IsNonneg-wager amount w cs h.nonneg)

  -- A wallet that is charged and gets its ledger rows, with no wager.
  pub charged-IsSound :
      (w0 w : Wallet) (es : List WalletTransaction)
      → get_row Wallet.user w.user ws ≡ some w0
      → w.balance ≡ w0.balance +ℤ total w.user es
      → w.locked_cashback_balance ≡ w0.locked_cashback_balance
      → Owned w.user es
      → roundings w.user es ≡ 0
      → IsSound (put_row Wallet.user w ws) (ts ++ es) cs
  charged-IsSound w0 w es found balance locked owned exact =
      let own : w0.locked_cashback_balance ≡ locked_total w.user cs =
        rw found at (h.locked w.user) in
      change-IsSound h w0 w es cs found owned (omega (int_laws, parts balance))
        (omega (int_laws, parts balance)) (locked ∙ own) (λ u ne. refl) h.nonneg

-- The ledger row of a stake, on the wallet as the wager leaves it.
abbrev stake_entry : Wallet → Money → WalletTransaction
stake_entry w stake = record {
  wallet = w.user;
  txn_type = TxnType.bet_placed;
  amount = neg stake;
  status = TxnStatus.completed;
  balance_after = w.balance;
}

total-stake :
    (u : ℕ) (w : Wallet) (stake : Money)
    → w.user ≡ u
    → (total u (stake_entry w stake ∷ []) ≡ neg stake)
      × (roundings u (stake_entry w stake ∷ []) ≡ 0)
total-stake u w stake e = rw (e, ==_refl) (+ℤ_zero (neg stake), refl)

module _ (w : Wallet) (stake : Money) where
  abbrev charged : Wallet
  charged = record w { balance = w.balance -ℤ stake }

  -- The books of a state in which the stake's ledger row, on `w'`, is still to be written.
  abbrev Owed : Wallet → Database → Type 0
  Owed w' s = IsSound s.wallets (s.transactions ++ stake_entry w' stake ∷ []) s.credits

  abbrev saved : Database → Database
  saved s = record s { wallets = put_row Wallet.user charged s.wallets }

  module _ (s : Database) (h : Held w s) (covered : ltb_ℤ w.balance stake ≡ false) where
    -- A stake that is not above zero wagers nothing.
    wager-Ends :
        (b : Bool)
        → let done = wager_credits stake charged s.credits in
          Ends Sound Owed (
            if b then (ok charged, saved s) else (
              ok done.wallet,
              record (saved s) {
                wallets =
                    if done.wallet_changed
                    then save_balances done.wallet (saved s).wallets
                    else (saved s).wallets;
                credits = done.credits;
                transactions = s.transactions ++ done.entries;
              },
            ))
    wager-Ends true =
        let (sum, exact) = total-stake w.user charged stake refl in
        charged-IsSound h.0 w charged (stake_entry charged stake ∷ []) h.1 (rw sum (omega int_laws))
          refl (refl, tt) exact
    wager-Ends false =
        let cs = s.credits in
        let done = (wager_credits stake charged cs).wallet in
        let same = user-wager stake charged cs in
        let (sum, exact) = total-stake w.user done stake same in
        rw (save-wagered stake charged cs s.wallets w h.1, append_assoc)
          (wagered-IsSound h.0 w charged stake (stake_entry done stake ∷ []) h.1
            (rw sum (omega int_laws)) refl (omega (int_laws, ltb_ℤ→ge w.balance stake covered))
            (same, tt) exact)

  -- What follows the test of the balance in `charge_stake`.
  pub charge-Triple :
      Triple Sound
        (λ s. Held w s × (ltb_ℤ w.balance stake ≡ false))
        (save_wallet charged
          >> (record_wager charged stake >>= λ w'.
              record_transaction w' TxnType.bet_placed (neg stake)))
        (λ _. Sound)
  charge-Triple =
      bind-Triple
        {Q = λ _ t. (s : Database) × Held w s × (ltb_ℤ w.balance stake ≡ false) × (t ≡ saved s)}
        (unfold save_wallet modify in record { run = λ s h. (s, h.0, h.1, refl) })
        (λ _.
          bind-Triple {Q = Owed}
            (unfold record_wager in
              record { run = λ t (s, h, c, e). rw e (wager-Ends s h c (leb_ℤ stake (pos 0))) })
            (λ w'. unfold record_transaction modify in record { run = λ s h. h }))

-- Charging a stake, single or parlay, keeps the invariant.
pub charge_stake-Triple : (u : ℕ) (stake : Money) → Keeps Sound (charge_stake u stake)
unfolding charge_stake
charge_stake-Triple u stake = bind-Triple (lock-Triple u) (λ w.
    bind-Triple {Q = λ _ s. Held w s × (ltb_ℤ w.balance stake ≡ false)}
      (before (λ s h. h.0) (raise_if-Triple _ _ (λ s h. h.0))) (λ _. charge-Triple w stake))

locked_amount_self : (u : ℕ) (c : CashbackCredit) → u ≡ c.user → locked_amount u c ≡ locked_part c
locked_amount_self u c e = rw e (ground arith)

locked_amount-other : (u : ℕ) (c : CashbackCredit) → u ≢ c.user → locked_amount u c ≡ pos 0
locked_amount-other u c ne = ground arith

-- Paying a credit into its user's wallet keeps the invariant.
pub apply_credit-Triple :
    (c : CashbackCredit) → pos 0 ≤ℤ c.cashback_amount → Keeps Sound (apply_credit c)
unfolding apply_credit
apply_credit-Triple c nonneg =
    atomic-Triple (λ s h. h)
      (bind-Triple (lock-Triple c.user) (λ w.
        unfold save_wallet record_transaction ◌>>=◌ in record { run = λ s h. go w s h.0 h.1 }))
  where
    go :
        (w : Wallet) (s : Database)
        → Held w s
        → w.user ≡ c.user
        → IsSound
            (put_row Wallet.user (credited c w) s.wallets)
            (s.transactions
              ++ record {
                wallet = w.user;
                txn_type = TxnType.cashback_credit;
                amount = c.cashback_amount;
                status = TxnStatus.completed;
                balance_after = w.balance +ℤ c.cashback_amount;
              }
                ∷ [])
            (c ∷ s.credits)
    go w s h same =
        let own : w.locked_cashback_balance ≡ locked_total w.user s.credits =
          rw h.1 at (h.0.locked w.user) in
        change-IsSound h.0 w (credited c w) _ (c ∷ s.credits) h.1 (refl, tt)
          (rw ==_refl (omega int_laws)) (rw ==_refl (omega int_laws))
          (rw (locked_amount_self w.user c same) (omega (int_laws, parts own)))
          (λ u ne. rw (locked_amount-other u c (λ e. ne (e ∙ sym same))) (omega int_laws))
          (nonneg, h.0.nonneg)
