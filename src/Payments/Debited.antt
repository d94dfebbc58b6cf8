-- ===== src/Payments/Debited.antt =====
-- The debit of a withdrawal request: the wallets and payments that it leaves.
use quickpaybet.Prelude.{
  ℕ, ◌≡◌, ◌⊎◌, inl, inr, refl, true, false, Option, none, some, [], ◌∷◌, ◌++◌, arith,
}
use quickpaybet.Prelude.Int.{ℤ, pos, ◌-ℤ◌, leb_ℤ, ltb_ℤ}
use quickpaybet.Prelude.Table.{put_row}
use quickpaybet.Models.Money.{Money}
use quickpaybet.Models.Accounts.{User, Currency}
use quickpaybet.Models.Wallets.{Wallet, withdrawable_balance, available_balance}
use quickpaybet.Models.Payments.{Text, CryptoPayment, PaymentType}
use quickpaybet.Models.Database.{Database}
use quickpaybet.Action.{pure, ◌>>=◌}
use quickpaybet.Action.Triple.{
  Triple, Ends, bind-Triple, undone-Triple, raise_if-Triple, modify-Triple, given, forget,
  Keeps-gets, Keeps-raise_if, pure-Triple,
}
use quickpaybet.Wallet.Ledger.{
  wallet_of, get_or_create_wallet, new_wallet, save_wallet, record_transaction,
}
use quickpaybet.Wallet.Funds.{withdraw_funds}
use quickpaybet.Payments.Requests.{create_payment, open_withdrawal, new_payment}

-- Every wallet is what it was in `s`.
abbrev pub SameWallets : Database → Database → Type 0
SameWallets s t = (v : ℕ) → wallet_of v t ≡ wallet_of v s

abbrev pub Any : Database → Type 0
Any s = Unit

-- A wallet of `s` that is debited, and nothing else.
abbrev pub debited : Money → Wallet → Wallet
debited a w = record w { balance = w.balance -ℤ a }

abbrev pub Debited : Database → ℕ → Money → Database → Type 0
Debited s u a t =
    (w : Wallet) × (wallet_of u s ≡ some w)
    × (t.wallets ≡ put_row Wallet.user (debited a w) s.wallets)
    × (leb_ℤ a (pos 0) ≡ false)

-- A wallet that was just created holds nothing that could be withdrawn.
abbrev pub Opened : Database → ℕ → Wallet → Database → Type 0
Opened s u w t = ((wallet_of u s ≡ some w) × (t ≡ s)) ⊎ (w ≡ new_wallet u)

get_or_create-Opened :
    (s : Database) (u : ℕ) → Triple Any (λ t. t ≡ s) (get_or_create_wallet u) (Opened s u)
unfolding get_or_create_wallet pure
get_or_create-Opened s u = record { run = λ t e. rw e (go (wallet_of u s) refl) }
  where
    go :
        (o : Option Wallet)
        → wallet_of u s ≡ o
        → Ends Any (Opened s u) (elim o [
          | none ↦ pure (new_wallet u) (record s { wallets = s.wallets ++ new_wallet u ∷ [] })
          | some w ↦ pure w s
        ])
    go none e = inr refl
    go (some w) e = inl (e, refl)

-- An amount above zero is more than a new wallet's withdrawable balance.
new_wallet-withdrawable :
    (u : ℕ) (a : Money)
    → leb_ℤ a (pos 0) ≡ false
    → ltb_ℤ (withdrawable_balance (new_wallet u)) a ≡ true
unfolding withdrawable_balance available_balance ◌-ℤ◌
new_wallet-withdrawable u a h = ground arith

pub withdraw_funds-Debited :
    (s : Database) (u : ℕ) (a : Money)
    → Triple Any (λ t. t ≡ s) (withdraw_funds u a) (λ _. Debited s u a)
unfolding withdraw_funds
withdraw_funds-Debited s u a = bind-Triple (raise_if-Triple _ _ (λ t e. tt)) λ _.
    undone-Triple (λ t e. tt)
      (given λ above. bind-Triple (get_or_create-Opened s u) λ w.
        bind-Triple (raise_if-Triple _ _ (λ t e. tt)) λ _.
          unfold save_wallet record_transaction ◌>>=◌ in
          record { run = λ t h. go above w t h.0 h.1 })
  where
    go :
        leb_ℤ a (pos 0) ≡ false
        → (w : Wallet) (t : Database) → Opened s u w t
        → ltb_ℤ (withdrawable_balance w) a ≡ false
        → (v : Wallet) × (wallet_of u s ≡ some v)
          × (put_row Wallet.user (debited a w) t.wallets
              ≡ put_row Wallet.user (debited a v) s.wallets)
          × (leb_ℤ a (pos 0) ≡ false)
    go above w t (inl (found, e)) enough = (w, found, rw e, above)
    go above w t (inr e) enough = cc (new_wallet-withdrawable u a above)

pub create_payment-Debited :
    (s : Database) (u : ℕ) (a : Money) (p : CryptoPayment)
    → Triple Any (Debited s u a) (create_payment p) (λ _. Debited s u a)
unfolding create_payment
create_payment-Debited s u a p = bind-Triple (forget (λ t h. tt) (Keeps-gets _)) λ taken.
    bind-Triple (forget (λ t h. tt) (Keeps-raise_if _ _)) λ _.
      bind-Triple (forget (λ t h. tt) (Keeps-gets _))
        λ k. bind-Triple (modify-Triple _ (λ t h. h)) λ _. pure-Triple _

pub open_withdrawal-Debited :
    (s : Database) (user : User) (amount : Money) (address : Option Text)
    (currency name external_id : Text) (converted : Money × Currency × ℤ)
    → Triple
        (λ t. t ≡ s)
        (λ t. t ≡ s)
        (open_withdrawal user amount address currency name external_id converted)
        (λ _. Debited s user.id converted.0)
unfolding open_withdrawal
open_withdrawal-Debited s user amount address currency name external_id converted =
    undone-Triple (λ t e. e)
      (bind-Triple (withdraw_funds-Debited s user.id converted.0) λ _.
        create_payment-Debited s user.id converted.0 (
          new_payment user amount currency converted PaymentType.withdrawal name external_id
            address))
