-- ===== src/Payments/Refund.antt =====
-- A withdrawal that the provider does not take: what becomes of the wallet and of its ledger.
use quickpaybet.Payments.Rewards.{get_lifetime_deposit_total, counts_for}
use quickpaybet.Prelude.{
  ℕ, ◌≡◌, refl, ap, true, false, Option, none, some, List, [], ◌∷◌, ◌++◌, ==_refl, arith,
}
use quickpaybet.Prelude.Int.{pos, ◌+ℤ◌, ◌-ℤ◌, int_laws, leb_ℤ}
use quickpaybet.Prelude.Table.{get_row, put_row, put-put, key-get, get-put_at, get-put_same}
use quickpaybet.Models.Money.{Money}
use quickpaybet.Models.Accounts.{User}
use quickpaybet.Models.Wallets.{Wallet, WalletTransaction, TxnType, TxnStatus}
use quickpaybet.Models.Payments.{Text, CryptoPayment, PaymentStatus}
use quickpaybet.Models.Database.{Database}
use quickpaybet.Action.{Error, or_raise, returns, Done, Result, ok, err, ◌>>=◌, ◌▸◌}
use quickpaybet.Action.Triple.{
  Triple, Ends, bind-Triple, relax, raised-Ends, given, forget, Keeps-gets, Keeps-raise_if,
  raise-Triple,
}
use quickpaybet.Wallet.Ledger.{wallet_of, get_or_create_wallet, save_wallet, record_transaction}
use quickpaybet.Wallet.Funds.{deposit_funds}
use quickpaybet.Payments.Providers.{Provider}
use quickpaybet.Payments.Requests.{
  refund_withdrawal, finish_withdrawal, save_payment, create_withdrawal_request,
}
use quickpaybet.Payments.Debited.{SameWallets, debited, Debited, open_withdrawal-Debited}

-- Adding what was taken gives the wallet back as it was.
debited-restored :
    (a : Money) (w : Wallet) → record (debited a w) { balance = w.balance -ℤ a +ℤ a } ≡ w
debited-restored a w = let e : w.balance -ℤ a +ℤ a ≡ w.balance = omega int_laws in rw e

-- The wallet that a deposit finds after the debit.
found-debited :
    (u : ℕ) (a : Money) (w : Wallet) (ws : List Wallet)
    → get_row Wallet.user u ws ≡ some w
    → get_row Wallet.user u (put_row Wallet.user (debited a w) ws) ≡ some (debited a w)
found-debited u a w ws found = get-put_at Wallet.user u w (debited a w) ws found refl

-- The row of a deposit that brings the wallet to `balance`.
abbrev pub deposit_entry : ℕ → Money → Money → WalletTransaction
deposit_entry u a balance = record {
  wallet = u;
  txn_type = TxnType.deposit;
  amount = a;
  status = TxnStatus.completed;
  balance_after = balance;
}

abbrev refunded : ℕ → Money → Wallet → CryptoPayment → Database → Database
refunded u a w p t = record t {
  wallets = put_row Wallet.user (record w { balance = w.balance +ℤ a }) t.wallets;
  transactions = t.transactions ++ deposit_entry w.user a (w.balance +ℤ a) ∷ [];
  payments = put_row CryptoPayment.id (record p { status = PaymentStatus.failed }) t.payments;
}

-- With a wallet and an amount above zero the refund goes through.
refund_withdrawal-runs :
    (u : ℕ) (a : Money) (p : CryptoPayment) (w : Wallet) (t : Database)
    → wallet_of u t ≡ some w
    → leb_ℤ a (pos 0) ≡ false
    → refund_withdrawal u a p t ≡ (ok tt, refunded u a w p t)
unfolding refund_withdrawal deposit_funds ◌>>=◌ get_or_create_wallet save_wallet record_transaction
    save_payment
refund_withdrawal-runs u a p w t found above = ground (arith, found, above)

refund-Ends :
    (s t : Database) (u : ℕ) (a : Money) (p : CryptoPayment)
    → Debited s u a t
    → Ends (λ t. ⊥) (λ _. SameWallets s) (refund_withdrawal u a p t)
refund-Ends s t u a p (w, found, e, above) =
    rw
      (refund_withdrawal-runs u a p (debited a w) t (rw e (found-debited u a w s.wallets found))
        above)
      (λ v.
        rw
          (
            e,
            put-put Wallet.user (debited a w) (record w { balance = w.balance -ℤ a +ℤ a }) s.wallets
                refl,
            debited-restored a w,
          )
          (get-put_same Wallet.user u v w s.wallets found))

finish_withdrawal-SameWallets :
    (s : Database) (u : ℕ) (a : Money) (p : CryptoPayment)
    → Triple (SameWallets s) (Debited s u a) (finish_withdrawal u a p none) (λ _ _. ⊥)
unfolding finish_withdrawal
finish_withdrawal-SameWallets s u a p =
    bind-Triple {Q = λ _. SameWallets s}
      (record { run = λ t h. weaken (refund_withdrawal u a p t) (refund-Ends s t u a p h) })
      (λ _. raise-Triple _ (λ t h. h))
  where
    weaken :
        (r : Result Done × Database)
        → Ends (λ t. ⊥) (λ _. SameWallets s) r
        → Ends (SameWallets s) (λ _. SameWallets s) r
    weaken (ok x, t) h = h
    weaken (err e, t) h = absurd h

request-Triple :
    (s : Database) (p : Provider) (name external_id : Text) (user : User) (amount : Money)
    (address : Option Text) (currency : Text)
    → p.withdrawal_answer user.id amount address currency external_id ≡ none
    → Triple
        (SameWallets s)
        (λ t. t ≡ s)
        (create_withdrawal_request (some p) name external_id user amount address currency)
        (λ _ _. ⊥)
unfolding create_withdrawal_request
request-Triple s p name external_id user amount address currency raised =
    let start = λ (t : Database) (e : t ≡ s) (v : ℕ). ap (wallet_of v) e in
    bind-Triple (forget start (Keeps-raise_if _ _)) λ _.
      bind-Triple (forget start (Keeps-raise_if _ _)) λ _.
        bind-Triple (forget start (Keeps-gets _)) λ converted.
          bind-Triple
            (relax start
              (open_withdrawal-Debited s user amount address currency name external_id converted))
            λ payment.
              bind-Triple {Q = λ q t. Debited s user.id converted.0 t × (p ≡ q)}
                (unfold or_raise in record { run = λ t h. (h, refl) })
                λ q. given λ e.
                  rw (← e, raised) (finish_withdrawal-SameWallets s user.id converted.0 payment)

-- When the call of the provider raises an exception, a withdrawal request ends in an error and every wallet is as it was before the request.
pub failed_withdrawal_restores :
    (s : Database) (p : Provider) (name external_id : Text) (user : User) (amount : Money)
    (address : Option Text) (currency : Text)
    → p.withdrawal_answer user.id amount address currency external_id ≡ none
    → let m = create_withdrawal_request (some p) name external_id user amount address currency in
      ((e : Error) × (returns m s ≡ err e)) × ((v : ℕ) → wallet_of v (s ▸ m) ≡ wallet_of v s)
failed_withdrawal_restores s p name external_id user amount address currency raised =
    raised-Ends (SameWallets s) _
      ((request-Triple s p name external_id user amount address currency raised).run s refl)

lifetime-append :
    (u : ℕ) (ts : List WalletTransaction) (t : WalletTransaction)
    → counts_for u t ≡ true
    → get_lifetime_deposit_total u (ts ++ t ∷ []) ≡ get_lifetime_deposit_total u ts +ℤ t.amount
unfolding get_lifetime_deposit_total
lifetime-append u [] t h = rw h (omega int_laws)
lifetime-append u (x ∷ xs) t h = grind (int_laws, lifetime-append u xs t h)

-- The refund of a withdrawal, whose ledger row is a deposit's, raises the user's lifetime deposit total by its amount, although nothing was deposited.
pub refund_counts_as_deposit :
    (s : Database) (u : ℕ) (a : Money) (payment : CryptoPayment) (w : Wallet)
    → wallet_of u s ≡ some w
    → leb_ℤ a (pos 0) ≡ false
    → get_lifetime_deposit_total u (s ▸ refund_withdrawal u a payment).transactions
      ≡ get_lifetime_deposit_total u s.transactions +ℤ a
refund_counts_as_deposit s u a payment w found above =
    rw (◌▸◌, refund_withdrawal-runs u a payment w s found above)
      (lifetime-append u s.transactions (deposit_entry w.user a (w.balance +ℤ a))
        (rw (key-get Wallet.user u w s.wallets found, ==_refl) refl))
