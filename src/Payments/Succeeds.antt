-- ===== src/Payments/Succeeds.antt =====
-- A deposit that can be credited: its amount is above zero, and its user has a row and a wallet.
use quickpaybet.Prelude.{ℕ, ◌≡◌, refl, false, some, List, [], ◌∷◌, arith}
use quickpaybet.Prelude.Int.{pos, ◌+ℤ◌, leb_ℤ}
use quickpaybet.Prelude.Table.{get_row, get-put_at}
use quickpaybet.Models.Money.{Money, Percent}
use quickpaybet.Models.Accounts.{User}
use quickpaybet.Models.Wallets.{Wallet}
use quickpaybet.Models.Payments.{CryptoPayment, UserRewardClaim}
use quickpaybet.Models.Database.{Database}
use quickpaybet.Action.{ok, ◌>>=◌}
use quickpaybet.Action.Triple.{
  Triple, Never, bind-Triple, known-Triple, modify-Triple, gets-Triple, pure-Triple,
  total_atomic-Triple,
}
use quickpaybet.Wallet.Ledger.{wallet_of}
use quickpaybet.Wallet.Funds.{deposit_funds}
use quickpaybet.Bets.Commission.{user_row}
use quickpaybet.Payments.Requests.{save_payment}
use quickpaybet.Payments.Rewards.{apply_reward_packages, save_claims}
use quickpaybet.Payments.Deposits.{credit_deposit}
use quickpaybet.Payments.Holding.{amount_of, deposit_funds-runs}

abbrev pub HasUser : ℕ → Database → Type 0
HasUser u s = (user : User) × (get_row User.id u s.users ≡ some user)

abbrev pub HasWallet : ℕ → Database → Type 0
HasWallet u s = (w : Wallet) × (wallet_of u s ≡ some w)

abbrev pub Ready : ℕ → Database → Type 0
Ready u s = HasUser u s × HasWallet u s

deposit_funds-Ready :
    (u : ℕ) (a : Money)
    → leb_ℤ a (pos 0) ≡ false
    → Triple Never (Ready u) (deposit_funds u a) (λ _. Ready u)
deposit_funds-Ready u a above = record {
  run = λ s ((user, is_user), (w, found)). rw (deposit_funds-runs u a w s found above) (
    (user, is_user),
    (
      record w { balance = w.balance +ℤ a },
      get-put_at Wallet.user u w (record w { balance = w.balance +ℤ a }) s.wallets found refl,
    ),
  );
}

user_row-runs :
    (u : ℕ) (user : User) (s : Database)
    → get_row User.id u s.users ≡ some user
    → user_row u s ≡ (ok user, s)
unfolding user_row ◌>>=◌
user_row-runs u user s h = ground (arith, h)

-- The rows of users that the rewards write keep the user.
save_claims-Ready :
    (u : ℕ) (user : User) (new : List UserRewardClaim) (rate : Percent) (s : Database)
    → get_row User.id u s.users ≡ some user
    → HasWallet u s
    → Ready u (save_claims user new rate s)
save_claims-Ready u user [] rate s h w = ((user, h), w)
save_claims-Ready u user (c ∷ cs) rate s h w = (
  (
    record user { commission_rate = rate },
    get-put_at User.id u user (record user { commission_rate = rate }) s.users h refl,
  ),
  w,
)

apply_reward_packages-Ready :
    (u : ℕ) → Triple Never (Ready u) (apply_reward_packages u) (λ _. Ready u)
unfolding apply_reward_packages
apply_reward_packages-Ready u = record {
  run = λ s ((user, is_user), w).
      (known-Triple {P = λ t. (get_row User.id u t.users ≡ some user) × HasWallet u t} (user_row u)
          _ user (λ t h. user_row-runs u user t h.0)
          (bind-Triple (gets-Triple _) λ total. bind-Triple (gets-Triple _) λ packages.
            bind-Triple (modify-Triple _ λ t h. save_claims-Ready u user _ _ t h.0.0.0 h.0.0.1)
              λ _. pure-Triple _)).run
        s (is_user, w);
}

pub credit_deposit-Ready :
    (p : CryptoPayment)
    → leb_ℤ (amount_of p) (pos 0) ≡ false
    → Triple Never (Ready p.user) (credit_deposit p) (λ _. Ready p.user)
unfolding credit_deposit save_payment
credit_deposit-Ready p above = total_atomic-Triple (
    bind-Triple (deposit_funds-Ready p.user (amount_of p) above)
      λ _. bind-Triple (apply_reward_packages-Ready p.user) λ _. modify-Triple _ λ t h. h)
