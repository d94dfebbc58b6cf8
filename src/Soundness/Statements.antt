-- ===== src/Soundness/Statements.antt =====
-- Rules for the statements that services are made of: locking a wallet, and posting to it.
use quickpaybet.Prelude.{ℕ, ◌<◌, ◌≡◌, ◌∙◌, sym, refl, Option, none, some, [], ◌∷◌, ◌++◌, ==_refl}
use quickpaybet.Prelude.Int.{ℤ, pos, ◌+ℤ◌, ◌≤ℤ◌, int_laws}
use quickpaybet.Prelude.Table.{key-get, get-append}
use mathlib.Core.Path.{subst}
use quickpaybet.Models.Money.{Money, Column, store, store_one, store-add_one, store-add_slack}
use quickpaybet.Models.Wallets.{Wallet, TxnType}
use quickpaybet.Models.Database.{Database}
use quickpaybet.Action.{or_raise, pure, modify, does_not_exist, ◌>>=◌, ◌>>◌}
use quickpaybet.Action.Triple.{Triple, Ends}
use quickpaybet.Wallet.Ledger.{
  wallet_of, new_wallet, lock_wallet, get_or_create_wallet, save_wallet, record_transaction, post,
  add_to_balance,
}
use quickpaybet.Wallet.Reconciled.{slack}
use quickpaybet.Soundness.Invariant.{Sound, Held, entry-IsSound, reserve-IsSound, create-IsSound}

-- A row that is found is found under its own user.
pub found_self :
    {u : ℕ} {w : Wallet} (s : Database)
    → wallet_of u s ≡ some w
    → (wallet_of w.user s ≡ some w) × (w.user ≡ u)
found_self {u} {w} s e =
    let same = key-get Wallet.user u w s.wallets e in
    (subst (λ k. wallet_of k s ≡ some w) (sym same) e, same)

lock-Ends :
    (u : ℕ) (s : Database) (o : Option Wallet)
    → wallet_of u s ≡ o
    → Sound s
    → Ends Sound (λ w s. Held w s × (w.user ≡ u)) (or_raise o does_not_exist s)
unfolding or_raise
lock-Ends u s none e h = h
lock-Ends u s (some w) e h = let (own, same) = found_self s e in ((h, own), same)

-- Locking a wallet finds the row of that user, or raises and changes nothing.
pub lock-Triple : (u : ℕ) → Triple Sound Sound (lock_wallet u) (λ w s. Held w s × (w.user ≡ u))
unfolding lock_wallet ◌>>=◌
lock-Triple u = record { run = λ s h. lock-Ends u s (wallet_of u s) refl h }

-- So does `get_or_create`, with a new row that has nothing in it if there is none.
pub get_or_create-Triple :
    (u : ℕ) → Triple Sound Sound (get_or_create_wallet u) (λ w s. Held w s × (w.user ≡ u))
unfolding get_or_create_wallet pure
get_or_create-Triple u = record { run = λ s h. go s (wallet_of u s) refl h }
  where
    go :
        (s : Database) (o : Option Wallet)
        → wallet_of u s ≡ o
        → Sound s
        → Ends Sound
            (λ w s. Held w s × (w.user ≡ u))
            (elim o [
              | none ↦ pure (new_wallet u) (record s { wallets = s.wallets ++ new_wallet u ∷ [] })
              | some w ↦ pure w s
            ])
    go s none e h = (
      (create-IsSound h u e, get-append Wallet.user u (new_wallet u) s.wallets e ∙ rw ==_refl),
      refl,
    )
    go s (some w) e h = let (own, same) = found_self s e in ((h, own), same)

-- Saving a held wallet and writing the ledger row of the change.
pub entry-Triple :
    (w w' : Wallet) (kind : TxnType) (amount : Money)
    → w'.user ≡ w.user
    → w'.balance ≤ℤ w.balance +ℤ amount +ℤ pos (slack kind)
    → w.balance +ℤ amount ≤ℤ w'.balance +ℤ pos (slack kind)
    → w'.locked_cashback_balance ≡ w.locked_cashback_balance
    → Triple Sound (Held w) (save_wallet w' >> record_transaction w' kind amount) (λ _. Sound)
unfolding save_wallet record_transaction ◌>>=◌
entry-Triple w w' kind amount same hi lo locked = record {
  run = λ s h. entry-IsSound h.0 w w' _ (rw same h.1) refl hi lo locked;
}

-- Saving a held wallet whose balance and locked balance are what they were.
pub reserve-Triple :
    (w w' : Wallet)
    → w'.user ≡ w.user
    → w'.balance ≡ w.balance
    → w'.locked_cashback_balance ≡ w.locked_cashback_balance
    → Triple Sound (Held w) (save_wallet w') (λ _. Sound)
unfolding save_wallet modify
reserve-Triple w w' same balance locked = record {
  run = λ s h. reserve-IsSound h.0 w w' (rw same h.1) balance locked;
}

module _ ⦃c : Column⦄ (kind : TxnType) (n : ℤ) (w : Wallet) where
  -- A posting whose amount may have more places than its column.
  pub post_rounded-Triple :
      (d : ℕ) → 0 < d → slack kind ≡ 1 → Triple Sound (Held w) (post kind n d w) (λ _. Sound)
  unfolding post
  post_rounded-Triple d p one =
      let (hi, lo) = store-add_slack w.balance n d p in
      entry-Triple w (add_to_balance n d w) kind (store n d) refl (rw one hi) (rw one lo) refl

  -- A posting of an amount that fits.
  pub post_exact-Triple : Triple Sound (Held w) (post kind n 1 w) (λ _. Sound)
  unfolding post
  post_exact-Triple =
      entry-Triple w (add_to_balance n 1 w) kind (store n 1) refl
        (rw (store-add_one w.balance n, store_one n) (omega int_laws))
        (rw (store-add_one w.balance n, store_one n) (omega int_laws)) refl
