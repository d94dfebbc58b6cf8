-- ===== src/Soundness/Fills.antt =====
-- The invariant for settling a fill: two wallets change before their two ledger rows are created.
use quickpaybet.Prelude.{
  ◌≡◌, refl, ◌∙◌, Bool, true, false, some, List, [], ◌∷◌, ◌++◌, arith, ◌==◌, ==_refl, ==_ne, ◌<◌,
}
use mathlib.Core.List.{append_assoc}
use quickpaybet.Prelude.Int.{ℤ, pos, ◌+ℤ◌, ◌*ℤ◌, ◌≤ℤ◌, int_laws, *ℤ_parts, +ℤ_zero}
use quickpaybet.Prelude.Table.{get_row, put_row, get-put_ne, put-put}
use native.Mathlib.Decide.{ℕ_discrete as dec_eq}
use quickpaybet.Models.Money.{Column, store, store-add_slack}
use quickpaybet.Models.Wallets.{Wallet, WalletTransaction, TxnType, TxnStatus}
use quickpaybet.Models.Cashback.{CashbackCredit}
use quickpaybet.Wallet.Reconciled.{slack}
use quickpaybet.Exchange.Fills.{Change, apply_change, add_changes, changed_wallets, won_or_lost}
use quickpaybet.Soundness.Invariant.{IsSound, entry-IsSound, change-IsSound, reserve-IsSound}

-- The ledger row of a change.
abbrev pub row_of : ⦃c : Column⦄ → Wallet → TxnType → ℤ → WalletTransaction
row_of w kind n = record {
  wallet = w.user;
  txn_type = kind;
  amount = store n 100;
  status = TxnStatus.completed;
  balance_after = w.balance;
}

pub slack-won_or_lost : (b : Bool) → slack (won_or_lost b) ≡ 1
unfolding won_or_lost
slack-won_or_lost true = refl
slack-won_or_lost false = refl

store-nothing : ⦃c : Column⦄ (b : ℤ) → store (b *ℤ pos 100 +ℤ pos 0) 100 ≡ b
store-nothing ⦃c⦄ b = rw +ℤ_zero (c.store_exact b 100 (omega arith))

-- Two changes rounded together, or each on its own, are at most two units apart.
store-add_two :
    ⦃c : Column⦄ (b x y : ℤ)
    → (store (b *ℤ pos 100 +ℤ (x +ℤ y)) 100 ≤ℤ b +ℤ store x 100 +ℤ store y 100 +ℤ pos 2)
      × (b +ℤ store x 100 +ℤ store y 100 ≤ℤ store (b *ℤ pos 100 +ℤ (x +ℤ y)) 100 +ℤ pos 2)
store-add_two ⦃c⦄ b x y =
    let n = b *ℤ pos 100 +ℤ (x +ℤ y) in
    let S = store n 100 in
    let X = store x 100 in
    let Y = store y 100 in
    let p : 0 < 100 = omega arith in
    (
      omega (
        int_laws,
        *ℤ_parts b (pos 100),
        *ℤ_parts S (pos 100),
        *ℤ_parts X (pos 100),
        *ℤ_parts Y (pos 100),
        *ℤ_parts (pos 2) (S *ℤ pos 100),
        *ℤ_parts (pos 2) (X *ℤ pos 100),
        *ℤ_parts (pos 2) (Y *ℤ pos 100),
        *ℤ_parts (pos 2) n,
        *ℤ_parts (pos 2) x,
        *ℤ_parts (pos 2) y,
        c.store_below n 100 p,
        c.store_above x 100 p,
        c.store_above y 100 p,
      ),
      omega (
        int_laws,
        *ℤ_parts b (pos 100),
        *ℤ_parts S (pos 100),
        *ℤ_parts X (pos 100),
        *ℤ_parts Y (pos 100),
        *ℤ_parts (pos 2) (S *ℤ pos 100),
        *ℤ_parts (pos 2) (X *ℤ pos 100),
        *ℤ_parts (pos 2) (Y *ℤ pos 100),
        *ℤ_parts (pos 2) n,
        *ℤ_parts (pos 2) x,
        *ℤ_parts (pos 2) y,
        c.store_above n 100 p,
        c.store_below x 100 p,
        c.store_below y 100 p,
      ),
    )

module _ ⦃c : Column⦄ {cs : List CashbackCredit} where
  -- One wallet's change, with its row.
  change_one :
      {ws : List Wallet} {ts : List WalletTransaction} (w : Wallet) (x : Change) (kind : TxnType)
      → slack kind ≡ 1
      → get_row Wallet.user w.user ws ≡ some w
      → IsSound ws ts cs
      → IsSound
          (put_row Wallet.user (apply_change x w) ws)
          (ts ++ row_of (apply_change x w) kind x.balance ∷ [])
          cs
  unfolding apply_change
  change_one w x kind one found h =
      let (hi, lo) = store-add_slack w.balance x.balance 100 (omega arith) in
      entry-IsSound h w _ _ found refl (rw one hi) (rw one lo) refl

  module _ {ws : List Wallet} {ts : List WalletTransaction} where
    -- Both changes of a shared wallet, with both rows.
    change_both :
        (w : Wallet) (x y : Change) (j k : TxnType)
        → slack j ≡ 1
        → slack k ≡ 1
        → get_row Wallet.user w.user ws ≡ some w
        → IsSound ws ts cs
        → let v = apply_change (add_changes x y) w in
          IsSound
            (put_row Wallet.user v (put_row Wallet.user v ws))
            ((ts ++ row_of v j x.balance ∷ []) ++ row_of v k y.balance ∷ [])
            cs
    unfolding apply_change add_changes
    change_both w x y j k one two found h =
        let v = apply_change (add_changes x y) w in
        let (hi, lo) = store-add_two w.balance x.balance y.balance in
        rw
          (
            put-put Wallet.user v v ws refl,
            append_assoc ts (row_of v j x.balance ∷ []) (row_of v k y.balance ∷ []),
          )
          (change-IsSound h w v (row_of v j x.balance ∷ row_of v k y.balance ∷ []) cs found
            (refl, (refl, tt)) (rw (==_refl, one, two) (omega (int_laws, hi)))
            (rw (==_refl, one, two) (omega (int_laws, lo))) (rw found at (h.locked w.user))
            (λ u e. refl) h.nonneg)

    -- The two wallets of a fill, of one user or of two.
    pub change_pair :
        (wb wl : Wallet) (xb xl : Change) (j k : TxnType)
        → slack j ≡ 1
        → slack k ≡ 1
        → get_row Wallet.user wb.user ws ≡ some wb
        → get_row Wallet.user wl.user ws ≡ some wl
        → IsSound ws ts cs
        → let vs = changed_wallets wb xb wl xl in
          IsSound
            (put_row Wallet.user vs.1 (put_row Wallet.user vs.0 ws))
            ((ts ++ row_of vs.0 j xb.balance ∷ []) ++ row_of vs.1 k xl.balance ∷ [])
            cs
    unfolding changed_wallets
    change_pair wb wl xb xl j k one two fb fl h = elim (dec_eq wb.user wl.user) [
      | yes e ↦
          let one_user : (wb.user == wl.user) ≡ true = rw e (==_refl wl.user) in
          rw one_user (change_both wb xb xl j k one two fb h)
      | no ne ↦
          let v = apply_change xb wb in
          let found = get-put_ne Wallet.user wl.user v ws ne ∙ fl in
          rw (==_ne ne) (change_one wl xl k two found (change_one wb xb j one fb h))
    ]

    -- Wallets whose balances do not change.
    pub release_pair :
        (wb wl : Wallet) (x y : ℤ)
        → get_row Wallet.user wb.user ws ≡ some wb
        → get_row Wallet.user wl.user ws ≡ some wl
        → IsSound ws ts cs
        → let vs =
            changed_wallets wb
              (record { balance = pos 0; reserved = x })
              wl
              (record { balance = pos 0; reserved = y }) in
          IsSound (put_row Wallet.user vs.1 (put_row Wallet.user vs.0 ws)) ts cs
    unfolding changed_wallets apply_change add_changes ◌+ℤ◌
    release_pair wb wl x y fb fl h = elim (dec_eq wb.user wl.user) [
      | yes e ↦
          let one_user : (wb.user == wl.user) ≡ true = rw e (==_refl wl.user) in
          let xy : Change =
            add_changes (record { balance = pos 0; reserved = x })
              (record { balance = pos 0; reserved = y }) in
          let v = apply_change xy wb in
          rw (one_user, put-put Wallet.user v v ws refl)
            (reserve-IsSound h wb v fb (store-nothing wb.balance) refl)
      | no ne ↦
          let v = apply_change (record { balance = pos 0; reserved = x }) wb in
          let found = get-put_ne Wallet.user wl.user v ws ne ∙ fl in
          rw (==_ne ne) (
            reserve-IsSound (reserve-IsSound h wb v fb (store-nothing wb.balance) refl) wl _ found
              (store-nothing wl.balance) refl)
    ]
