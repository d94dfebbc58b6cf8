-- ===== src/Payments/Holding.antt =====
-- What the wallet of a deposit's user holds once the deposit is credited.
use quickpaybet.Prelude.{ℕ, ◌≡◌, inl, inr, refl, ap, false, some, arith, get_or}
use quickpaybet.Prelude.Int.{pos, ◌+ℤ◌}
use quickpaybet.Prelude.Table.{put_row, get-put_at}
use quickpaybet.Action.Triple.{modify-Triple}
use quickpaybet.Prelude.{Bool-cases, [], ◌∷◌, ◌++◌}
use quickpaybet.Prelude.Int.{leb_ℤ}
use quickpaybet.Wallet.Funds.{deposit_funds}
use quickpaybet.Wallet.Ledger.{get_or_create_wallet, save_wallet, record_transaction}
use quickpaybet.Payments.Refund.{deposit_entry}
use quickpaybet.Payments.Requests.{save_payment}
use quickpaybet.Payments.Kept.{apply_reward_packages-Keeps}
use quickpaybet.Models.Money.{Money}
use quickpaybet.Models.Wallets.{Wallet}
use quickpaybet.Models.Payments.{CryptoPayment}
use quickpaybet.Models.Database.{Database}
use quickpaybet.Action.{ok, ◌>>=◌}
use quickpaybet.Action.Triple.{Triple, bind-Triple, undone-Triple, forget}
use quickpaybet.Wallet.Ledger.{wallet_of}
use quickpaybet.Payments.Deposits.{credit_deposit}

abbrev pub amount_of : CryptoPayment → Money
amount_of p = get_or p.wallet_amount p.amount

-- The wallet of `u` holds `b`.
abbrev pub Holds : ℕ → Money → Database → Type 0
Holds u b s = (w : Wallet) × (wallet_of u s ≡ some w) × (w.balance ≡ b)

pub deposit_funds-runs :
    (u : ℕ) (a : Money) (w : Wallet) (s : Database)
    → wallet_of u s ≡ some w
    → leb_ℤ a (pos 0) ≡ false
    → deposit_funds u a s ≡ (
      ok tt,
      record s {
        wallets = put_row Wallet.user (record w { balance = w.balance +ℤ a }) s.wallets;
        transactions = s.transactions ++ deposit_entry w.user a (w.balance +ℤ a) ∷ [];
      },
    )
unfolding deposit_funds ◌>>=◌ get_or_create_wallet save_wallet record_transaction
deposit_funds-runs u a w s found above = ground (arith, found, above)

pub deposit_funds-Holds :
    (u : ℕ) (a b : Money)
    → Triple (λ s. Unit) (Holds u b) (deposit_funds u a) (λ _. Holds u (b +ℤ a))
deposit_funds-Holds u a b = record {
  run = λ s (w, found, e). elim (Bool-cases (leb_ℤ a (pos 0))) [
    | inl low ↦ unfold deposit_funds ◌>>=◌ in rw low tt
    | inr above ↦ rw (deposit_funds-runs u a w s found above) (
      record w { balance = w.balance +ℤ a },
      get-put_at Wallet.user u w (record w { balance = w.balance +ℤ a }) s.wallets found refl,
      ap (λ x. x +ℤ a) e,
    )
  ];
}

pub credit_deposit-Holds :
    (p : CryptoPayment) (b : Money)
    → Triple
        (Holds p.user b)
        (Holds p.user b)
        (credit_deposit p)
        (λ _. Holds p.user (b +ℤ amount_of p))
unfolding credit_deposit save_payment
credit_deposit-Holds p b =
    undone-Triple {J = λ s. Unit} (λ s i. i)
      (bind-Triple (deposit_funds-Holds p.user (amount_of p) b) λ _.
        bind-Triple (forget (λ s i. tt) (apply_reward_packages-Keeps (λ s us cs i. i) _))
          λ _. modify-Triple {I = λ s. Unit} _ (λ s i. i))
