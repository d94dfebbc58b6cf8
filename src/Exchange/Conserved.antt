-- ===== src/Exchange/Conserved.antt =====
-- The money of `_settle_fill`: between two users, nothing comes in but the loser's cashback, and nothing
-- goes out but the commission.
use quickpaybet.Prelude.{ℕ, ◌≡◌, ◌≢◌, refl, sym, ◌∙◌, Bool, true, false, some, ==_ne, if◌then◌else◌}
use quickpaybet.Prelude.Int.{pos, parts, ◌+ℤ◌, ◌*ℤ◌, int_laws}
use quickpaybet.Prelude.Table.{get_row, key-get}
use quickpaybet.Models.Money.{Money, Percent, Column}
use quickpaybet.Models.Accounts.{User}
use quickpaybet.Models.Sports.{Selection, same_selection}
use quickpaybet.Models.Wallets.{Wallet}
use quickpaybet.Models.Exchange.{
  back, lay, ExchangeOrder, ExchangeFill, FillStatus, is_pending_fill,
}
use quickpaybet.Models.Database.{Database}
use quickpaybet.Action.{ok, returns, ◌▸◌, ◌>>=◌}
use quickpaybet.Action.Triple.{
  Triple, Never, total_atomic-Triple, known-Triple, before, after, returns_done, when_done,
}
use quickpaybet.Wallet.Ledger.{wallet_of, lock_wallet}
use quickpaybet.Cashback.Credit.{credit_cashback_for_loss}
use quickpaybet.Bets.Commission.{user_row}
use quickpaybet.Exchange.Fills.{
  Change, apply_change, changed_wallets, side_change, profit_of, commission_of, fill_row, order_row,
  settle_pending_fill, settle_fill,
}
use quickpaybet.Exchange.ZeroSum.{changed_wallets_conserve}
use quickpaybet.Exchange.FillWrites.{
  cashback_total, At, Final, swap-At, swap-Final, lock_wallet-runs, user_row-runs, order_row-runs,
  fill_row-runs, credit-Final, save_both-At,
}

changed_wallets-users :
    ⦃c : Column⦄ (wb wl : Wallet) (xb xl : Change)
    → wb.user ≢ wl.user
    → let vs = changed_wallets wb xb wl xl in (vs.0.user ≡ wb.user) × (vs.1.user ≡ wl.user)
unfolding changed_wallets apply_change
changed_wallets-users wb wl xb xl ne = rw (==_ne ne) (refl, refl)

-- The wallets `wb` and `wl` and the credits of `s`, beside what `t` has: the balances have changed by
-- the new credits' cashback and by the commission that the fill's row says.
abbrev pub Conserved : Database → ℕ → Wallet → Wallet → Database → Type 0
Conserved s k wb wl t =
    (vb : Wallet) × (vl : Wallet) × (g : ExchangeFill) × (cut : Money) × (wallet_of wb.user t
      ≡ some vb)
    × (wallet_of wl.user t ≡ some vl)
    × (get_row ExchangeFill.id k t.fills ≡ some g)
    × (g.commission_amount ≡ some cut)
    × (vb.balance +ℤ vl.balance +ℤ cut +ℤ cashback_total s.credits
        ≡ wb.balance +ℤ wl.balance +ℤ cashback_total t.credits)

-- A pending fill of two users, with the rows that its settlement reads.
pub record Pair (s : Database) (k : ℕ) (f : ExchangeFill) (b l : ExchangeOrder) (wb wl : Wallet)
    : Type 0 where
  pub fill_found : get_row ExchangeFill.id k s.fills ≡ some f
  pub waits : is_pending_fill f.status ≡ true
  pub back_found : get_row ExchangeOrder.id f.back_order s.orders ≡ some b
  pub lay_found : get_row ExchangeOrder.id f.lay_order s.orders ≡ some l
  pub back_wallet : wallet_of b.user s ≡ some wb
  pub lay_wallet : wallet_of l.user s ≡ some wl
  pub back_user : (user : User) × (get_row User.id b.user s.users ≡ some user)
  pub lay_user : (user : User) × (get_row User.id l.user s.users ≡ some user)
  pub two_users : b.user ≢ l.user

module _ ⦃c : Column⦄ (s : Database) (k : ℕ) (f : ExchangeFill) (b l : ExchangeOrder)
    (wb wl : Wallet) (rate : Percent) (pair : Pair s k f b l wb wl) where
  abbrev won_row : Bool → ExchangeFill
  won_row won = record f {
    status = if won then FillStatus.back_won else FillStatus.lay_won;
    commission_amount = some (commission_of (profit_of won f) rate);
  }

  abbrev after_fill : Bool → Wallet × Wallet
  after_fill won =
      changed_wallets wb (side_change won back b f rate) wl
        (side_change (if won then false else true) lay l f rate)

  abbrev Ended : Bool → Database → Type 0
  Ended won = Final b.user l.user k (after_fill won).0 (after_fill won).1 (won_row won) s.credits

  credit_loser-Ended :
      (won : Bool)
      → Triple Never
          (At b.user l.user k (after_fill won).0 (after_fill won).1 (won_row won) s.users s.credits)
          (user_row (if won then l.user else b.user) >>= λ loser.
            credit_cashback_for_loss loser (profit_of won f) 100)
          (λ _. Ended won)
  credit_loser-Ended true =
      let (user, found) = pair.lay_user in
      known-Triple (user_row l.user) _ user (λ t h. user_row-runs l.user user t (rw h.users found))
        (before (λ t h. swap-At h)
          (after (λ _ t h. swap-Final h)
            (credit-Final (λ q. pair.two_users (sym q)) user (profit_of true f) 100
              (key-get User.id l.user user s.users found))))
  credit_loser-Ended false =
      let (user, found) = pair.back_user in
      known-Triple (user_row b.user) _ user (λ t h. user_row-runs b.user user t (rw h.users found))
        (credit-Final pair.two_users user (profit_of false f) 100
          (key-get User.id b.user user s.users found))

  different : wb.user ≢ wl.user
  different = λ q. pair.two_users (
      sym (key-get Wallet.user b.user wb s.wallets pair.back_wallet)
      ∙ q
      ∙ key-get Wallet.user l.user wl s.wallets pair.lay_wallet)

  start-At : (t : Database) → t ≡ s → At b.user l.user k wb wl f s.users s.credits t
  start-At t e = record {
    first = rw e pair.back_wallet;
    second = rw e pair.lay_wallet;
    fill = rw e pair.fill_found;
    users = rw e refl;
    credits = rw e refl;
  }

  settle_pending_fill-Ended :
      (result : Selection)
      → Triple Never
          (λ t. t ≡ s)
          (settle_pending_fill f result rate)
          (λ _. Ended (same_selection f.selection result))
  unfolding settle_pending_fill
  settle_pending_fill-Ended result =
      let won = same_selection f.selection result in
      let (same_b, same_l) =
        changed_wallets-users wb wl (side_change won back b f rate)
          (side_change (if won then false else true) lay l f rate) different in
      known-Triple (order_row f.back_order) _ b
        (λ t e. order_row-runs f.back_order b t (rw e pair.back_found))
        (known-Triple (order_row f.lay_order) _ l
          (λ t e. order_row-runs f.lay_order l t (rw e pair.lay_found))
          (known-Triple (lock_wallet b.user) _ wb
            (λ t e. lock_wallet-runs b.user wb t (rw e pair.back_wallet))
            (known-Triple (lock_wallet l.user) _ wl
              (λ t e. lock_wallet-runs l.user wl t (rw e pair.lay_wallet))
              (before start-At (
                save_both-At {w = wb} {x = wl} {f = f} {us = s.users} {cs = s.credits}
                  pair.two_users (after_fill won).0 (after_fill won).1 _ _ _ _ (won_row won) _
                  same_b same_l refl (credit_loser-Ended won))))))

  settle_fill-Ended :
      (result : Selection)
      → Triple Never
          (λ t. t ≡ s)
          (settle_fill k result rate)
          (λ _. Ended (same_selection f.selection result))
  unfolding settle_fill
  settle_fill-Ended result = total_atomic-Triple (
      known-Triple (fill_row k) _ f (λ t e. fill_row-runs k f t (rw e pair.fill_found))
        (rw pair.waits (settle_pending_fill-Ended result)))

  after_fill-conserves :
      (won : Bool) (p : Money)
      → profit_of won f ≡ p *ℤ pos 100
      → (after_fill won).0.balance
          +ℤ (after_fill won).1.balance
          +ℤ commission_of (profit_of won f) rate
        ≡ wb.balance +ℤ wl.balance
  after_fill-conserves true p whole =
      changed_wallets_conserve true b l f rate wb wl p different whole
  after_fill-conserves false p whole =
      changed_wallets_conserve false b l f rate wb wl p different whole

  Ended-Conserved :
      (won : Bool) (p : Money) (t : Database)
      → profit_of won f ≡ p *ℤ pos 100
      → Ended won t
      → Conserved s k wb wl t
  Ended-Conserved won p t whole h = (
    h.w',
    h.x',
    won_row won,
    commission_of (profit_of won f) rate,
    rw (key-get Wallet.user b.user wb s.wallets pair.back_wallet) h.first,
    rw (key-get Wallet.user l.user wl s.wallets pair.lay_wallet) h.second,
    h.fill,
    refl,
    omega (int_laws, parts h.total, parts (after_fill-conserves won p whole)),
  )

-- Settling a pending fill whose orders are of two users, where the rows that it reads are there and its profit is a whole number of the wallet's units, returns, whichever side wins, and then the two stored balances and the commission on the fill's row are together what the balances were and the cashback of the credits that it created.
pub settle_fill-conserves :
    ⦃c : Column⦄ (s : Database) (k : ℕ) (f : ExchangeFill) (b l : ExchangeOrder) (wb wl : Wallet)
    (result : Selection) (rate : Percent) (p : Money)
    → Pair s k f b l wb wl
    → profit_of (same_selection f.selection result) f ≡ p *ℤ pos 100
    → (returns (settle_fill k result rate) s ≡ ok tt)
      × Conserved s k wb wl (s ▸ settle_fill k result rate)
settle_fill-conserves s k f b l wb wl result rate p pair whole =
    let T = settle_fill-Ended s k f b l wb wl rate pair result in
    let done = returns_done T s refl in
    (done, Ended-Conserved s k f b l wb wl rate pair _ p _ whole (when_done T s refl done))
