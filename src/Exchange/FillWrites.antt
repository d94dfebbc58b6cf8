-- ===== src/Exchange/FillWrites.antt =====
-- The writes of `_settle_fill` on two wallets and the fill's row, and the loser's cashback after them.
use quickpaybet.Prelude.{
  ℕ, ◌≡◌, ◌≢◌, refl, sym, ◌∙◌, some, List, [], ◌∷◌, arith, Option-cases, inl, inr,
}
use quickpaybet.Prelude.Int.{ℤ, pos, parts, ◌+ℤ◌, int_laws}
use quickpaybet.Prelude.Table.{get_row, put_row, get-put_at, get-put_ne, key-get}
use quickpaybet.Models.Money.{Money, Column}
use quickpaybet.Models.Accounts.{User}
use quickpaybet.Models.Wallets.{Wallet, TxnType}
use quickpaybet.Models.Cashback.{CashbackCredit}
use quickpaybet.Models.Exchange.{ExchangeOrder, ExchangeFill}
use quickpaybet.Models.Database.{Database}
use quickpaybet.Action.{Action, Done, ok, modify, ◌>>=◌}
use quickpaybet.Action.Triple.{
  Triple, Never, bind-Triple, total_atomic-Triple, known-Triple, modify-Triple, gets-Triple,
  returns-Triple, before, after,
}
use quickpaybet.Wallet.Ledger.{wallet_of, lock_wallet, save_wallet, record_transaction}
use quickpaybet.Cashback.Settings.{Settings, get_effective_settings}
use quickpaybet.Cashback.Credit.{new_credit, apply_credit, credited, credit_cashback_for_loss}
use quickpaybet.Bets.Commission.{user_row}
use quickpaybet.Exchange.Fills.{fill_row, order_row}

-- The cashback of the credits.
abbrev pub cashback_total : List CashbackCredit → Money
cashback_total [] = pos 0
cashback_total (c ∷ cs) = c.cashback_amount +ℤ cashback_total cs

-- The two wallets, the fill's row, and what a fill's settlement does not write before its last step.
pub record At (u v k : ℕ) (w x : Wallet) (f : ExchangeFill) (us : List User)
    (cs : List CashbackCredit) (t : Database) : Type 0 where
  pub first : wallet_of u t ≡ some w
  pub second : wallet_of v t ≡ some x
  pub fill : get_row ExchangeFill.id k t.fills ≡ some f
  pub users : t.users ≡ us
  pub credits : t.credits ≡ cs

module _ {u v k : ℕ} {w x : Wallet} {f : ExchangeFill} {us : List User} {cs : List CashbackCredit}
    (ne : u ≢ v) where
  save_first-At :
      (w' : Wallet)
      → w'.user ≡ w.user
      → Triple Never (At u v k w x f us cs) (save_wallet w') (λ _. At u v k w' x f us cs)
  unfolding save_wallet
  save_first-At w' same = modify-Triple _ λ t h. record {
    first = get-put_at Wallet.user u w w' t.wallets h.first same;
    second =
        get-put_ne Wallet.user v w' t.wallets
          (λ q. ne (sym (key-get Wallet.user u w t.wallets h.first) ∙ sym same ∙ q))
        ∙ h.second;
    fill = h.fill;
    users = h.users;
    credits = h.credits;
  }

  record-At :
      (w' : Wallet) (kind : TxnType) (n : Money)
      → Triple Never
          (At u v k w x f us cs)
          (record_transaction w' kind n)
          (λ _. At u v k w x f us cs)
  unfolding record_transaction
  record-At w' kind n = modify-Triple _ λ t h. record {
    first = h.first;
    second = h.second;
    fill = h.fill;
    users = h.users;
    credits = h.credits;
  }

pub swap-At :
    {u v k : ℕ} {w x : Wallet} {f : ExchangeFill} {us : List User} {cs : List CashbackCredit}
    {t : Database}
    → At u v k w x f us cs t
    → At v u k x w f us cs t
swap-At h = record {
  first = h.second;
  second = h.first;
  fill = h.fill;
  users = h.users;
  credits = h.credits;
}

pub lock_wallet-runs :
    (u : ℕ) (w : Wallet) (t : Database) → wallet_of u t ≡ some w → lock_wallet u t ≡ (ok w, t)
unfolding lock_wallet ◌>>=◌
lock_wallet-runs u w t h = ground (arith, h)

pub user_row-runs :
    (u : ℕ) (x : User) (t : Database)
    → get_row User.id u t.users ≡ some x
    → user_row u t ≡ (ok x, t)
unfolding user_row ◌>>=◌
user_row-runs u x t h = ground (arith, h)

pub order_row-runs :
    (k : ℕ) (o : ExchangeOrder) (t : Database)
    → get_row ExchangeOrder.id k t.orders ≡ some o
    → order_row k t ≡ (ok o, t)
unfolding order_row ◌>>=◌
order_row-runs k o t h = ground (arith, h)

pub fill_row-runs :
    (k : ℕ) (f : ExchangeFill) (t : Database)
    → get_row ExchangeFill.id k t.fills ≡ some f
    → fill_row k t ≡ (ok f, t)
unfolding fill_row ◌>>=◌
fill_row-runs k f t h = ground (arith, h)

-- A credit is its user's.
credit-user :
    ⦃c : Column⦄ (cfg : Settings) (user : User) (n : ℤ) (d : ℕ) (x : CashbackCredit)
    → new_credit cfg user n d ≡ some x
    → x.user ≡ user.id
unfolding new_credit
credit-user cfg user n d x h = ground (arith, h)

-- The two wallets hold together what they held, and the new credits' cashback.
pub record Final (u v k : ℕ) (w x : Wallet) (f : ExchangeFill) (cs : List CashbackCredit)
    (t : Database) : Type 0 where
  pub w' : Wallet
  pub x' : Wallet
  pub first : wallet_of u t ≡ some w'
  pub second : wallet_of v t ≡ some x'
  pub fill : get_row ExchangeFill.id k t.fills ≡ some f
  pub total :
      w'.balance +ℤ x'.balance +ℤ cashback_total cs
      ≡ w.balance +ℤ x.balance +ℤ cashback_total t.credits

module _ {u v k : ℕ} {w x : Wallet} {f : ExchangeFill} {cs : List CashbackCredit} where
  record-Final :
      (v' : Wallet) (kind : TxnType) (n : Money)
      → Triple Never
          (Final u v k w x f cs)
          (record_transaction v' kind n)
          (λ _. Final u v k w x f cs)
  unfolding record_transaction
  record-Final v' kind n = modify-Triple _ λ t h. record {
    w' = h.w';
    x' = h.x';
    first = h.first;
    second = h.second;
    fill = h.fill;
    total = h.total;
  }

module _ {u v k : ℕ} {w x : Wallet} {f : ExchangeFill} {us : List User} {cs : List CashbackCredit}
    (ne : u ≢ v) where
  apply_credit-Final :
      (c : CashbackCredit)
      → c.user ≡ u
      → Triple Never (At u v k w x f us cs) (apply_credit c) (λ _. Final u v k w x f cs)
  unfolding apply_credit
  apply_credit-Final c own = total_atomic-Triple (
      known-Triple (lock_wallet c.user) _ w (λ t h. lock_wallet-runs c.user w t (rw own h.first))
        (bind-Triple (save_first-At ne (credited c w) refl) λ _.
          bind-Triple {Q = λ _. Final u v k w x f cs}
            (modify-Triple _ λ t h. record {
              w' = credited c w;
              x' = x;
              first = h.first;
              second = h.second;
              fill = h.fill;
              total = rw h.credits (omega int_laws);
            })
            λ _. record-Final (credited c w) _ _))

  pub credit-Final :
      ⦃c : Column⦄ (user : User) (n : ℤ) (d : ℕ)
      → user.id ≡ u
      → Triple Never
          (At u v k w x f us cs)
          (credit_cashback_for_loss user n d)
          (λ _. Final u v k w x f cs)
  unfolding credit_cashback_for_loss
  credit-Final user n d own = bind-Triple (gets-Triple _) λ config.
      before (λ t h. h.0)
        (elim (Option-cases (new_credit (get_effective_settings config user) user n d)) [
          | inl e ↦ rw e (
              returns-Triple tt λ t h. record {
                w' = w;
                x' = x;
                first = h.first;
                second = h.second;
                fill = h.fill;
                total = rw h.credits refl;
              })
          | inr (c, e) ↦ rw e (
              apply_credit-Final c
                (credit-user (get_effective_settings config user) user n d c e ∙ own))
        ])

pub swap-Final :
    {u v k : ℕ} {w x : Wallet} {f : ExchangeFill} {cs : List CashbackCredit} {t : Database}
    → Final u v k w x f cs t
    → Final v u k x w f cs t
swap-Final h = record {
  w' = h.x';
  x' = h.w';
  first = h.second;
  second = h.first;
  fill = h.fill;
  total = omega (int_laws, parts h.total);
}

-- The writes of a fill's settlement, up to its last step.
module _ {u v k : ℕ} {w x : Wallet} {f : ExchangeFill} {us : List User} {cs : List CashbackCredit}
    (ne : u ≢ v) where
  pub save_both-At :
      (w' x' : Wallet) (i j : TxnType) (m n : Money) (f' : ExchangeFill) (last : Action Done)
      {Q : Done → Database → Type 0}
      → w'.user ≡ w.user
      → x'.user ≡ x.user
      → f'.id ≡ f.id
      → Triple Never (At u v k w' x' f' us cs) last Q
      → Triple Never
          (At u v k w x f us cs)
          (save_wallet w' >>= λ _. save_wallet x' >>= λ _. record_transaction w' i m >>= λ _.
            record_transaction x' j n >>= λ _.
            modify (λ s. record s { fills = put_row ExchangeFill.id f' s.fills }) >>= λ _. last)
          Q
  save_both-At w' x' i j m n f' last same_w same_x same_f h =
      bind-Triple (save_first-At ne w' same_w) λ _.
        bind-Triple
          (before (λ t a. swap-At a)
            (after (λ _ t a. swap-At a) (save_first-At (λ q. ne (sym q)) x' same_x)))
          λ _. bind-Triple (record-At ne w' i m) λ _. bind-Triple (record-At ne x' j n) λ _.
            bind-Triple
              (modify-Triple _ λ t a. record {
                first = a.first;
                second = a.second;
                fill = get-put_at ExchangeFill.id k f f' t.fills a.fill same_f;
                users = a.users;
                credits = a.credits;
              })
              λ _. h
