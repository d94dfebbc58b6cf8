-- ===== src/Soundness/Exchange.antt =====
-- The invariant for settling and voiding fills, and for closing the book of a match.
use quickpaybet.Prelude.{ℕ, refl, Bool, Option, none, some, ◌∙◌, List, [], ◌∷◌, ◌++◌}
use quickpaybet.Models.Money.{Column, Percent, store}
use quickpaybet.Models.Sports.{Match, MatchStatus, scheduled, live, finished, cancelled, Selection}
use quickpaybet.Models.Wallets.{Wallet}
use quickpaybet.Models.Exchange.{back, lay, ExchangeFill, ExchangeOrder, OrderStatus}
use quickpaybet.Models.Database.{Database}
use quickpaybet.Action.{Action, ◌>>◌}
use quickpaybet.Action.Triple.{
  Triple, Keeps, keeps_rules, bind-Triple, gets-Triple, or_raise-Triple, before, after,
  modify-Triple, Keeps-bind, Keeps-modify, Keeps-gets, Keeps-pure, Keeps-if,
}
use quickpaybet.Prelude.Table.{put_row}
use quickpaybet.Wallet.Ledger.{wallet_of, lock_wallet, save_wallet, record_transaction}
use quickpaybet.Exchange.Fills.{
  Change, changed_wallets, won_or_lost, fill_row, order_row, settle_pending_fill, settle_fill,
  void_pending_fill, void_fill, release_of,
}
use quickpaybet.Bets.ParlaySettle.{result_of}
use quickpaybet.Exchange.Orders.{add_to_reserved}
use quickpaybet.Exchange.Settle.{
  void_fills, settle_fills, release_remainder, mark_order, close_order, close_orders, close_book,
  settle_finished, exchange_by_status, settle_exchange_for_match,
}
use quickpaybet.Soundness.Invariant.{IsSound, Sound, Held}
use quickpaybet.Soundness.Statements.{lock-Triple, found_self, reserve-Triple}
use quickpaybet.Soundness.Fills.{change_pair, release_pair, row_of, slack-won_or_lost}
use quickpaybet.Soundness.Services.{credit_cashback_for_loss-Sound}
use quickpaybet.Soundness.Settlement.{user_row-Sound}

fill_row-Sound : (k : ℕ) → Keeps Sound (fill_row k)
unfolding fill_row
fill_row-Sound k = search keeps_rules

order_row-Sound : (k : ℕ) → Keeps Sound (order_row k)
unfolding order_row
order_row-Sound k = search keeps_rules

-- Both wallets of a fill are held.
abbrev Both : Wallet → Wallet → Database → Type 0
Both wb wl s = Held wb s × Held wl s

-- Locking a second wallet keeps the first.
lock_second : (wb : Wallet) (u : ℕ) → Triple Sound (Held wb) (lock_wallet u) (λ wl s. Both wb wl s)
unfolding lock_wallet
lock_second wb u = bind-Triple (gets-Triple (wallet_of u)) λ found.
    after (λ wl s h. (h.0.0, (h.0.0.0, (found_self s (h.0.1 ∙ h.1)).0)))
      (or_raise-Triple found _ (λ s h. h.0.0))

module _ ⦃c : Column⦄ where
  -- The two saves and the two ledger rows.
  transfer-Triple :
      {A : Type 0} (wb wl : Wallet) (xb xl : Change) (j k : Bool) (rest : Action A)
      → Keeps Sound rest
      → let vs = changed_wallets wb xb wl xl in
        Triple Sound
          (Both wb wl)
          (do
            save_wallet vs.0
            save_wallet vs.1
            record_transaction vs.0 (won_or_lost j) (store xb.balance 100)
            record_transaction vs.1 (won_or_lost k) (store xl.balance 100)
            rest)
          (λ _. Sound)
  unfolding save_wallet record_transaction
  transfer-Triple wb wl xb xl j k rest keeps =
      let vs = changed_wallets wb xb wl xl in
      let t0 = row_of vs.0 (won_or_lost j) xb.balance in
      let t1 = row_of vs.1 (won_or_lost k) xl.balance in
      bind-Triple
        {Q = λ _ s.
          IsSound (put_row Wallet.user vs.1 s.wallets) ((s.transactions ++ t0 ∷ []) ++ t1 ∷ [])
            s.credits}
        (modify-Triple _ (λ s h.
          change_pair wb wl xb xl (won_or_lost j) (won_or_lost k) (slack-won_or_lost j)
            (slack-won_or_lost k) h.0.1 h.1.1 h.0.0))
        λ _.
          bind-Triple
            {Q = λ _ s. IsSound s.wallets ((s.transactions ++ t0 ∷ []) ++ t1 ∷ []) s.credits}
            (modify-Triple _ (λ s h. h))
            λ _.
              bind-Triple {Q = λ _ s. IsSound s.wallets (s.transactions ++ t1 ∷ []) s.credits}
                (modify-Triple _ (λ s h. h))
                λ _. bind-Triple {Q = λ _. Sound} (modify-Triple _ (λ s h. h)) (λ _. keeps)

  settle_pending_fill-Sound :
      (f : ExchangeFill) (result : Selection) (rate : Percent)
      → Keeps Sound (settle_pending_fill f result rate)
  unfolding settle_pending_fill
  settle_pending_fill-Sound f result rate = Keeps-bind _ _ (order_row-Sound f.back_order) λ bo.
      Keeps-bind _ _ (order_row-Sound f.lay_order) λ lo. bind-Triple (lock-Triple bo.user) λ wb.
        bind-Triple (before (λ s h. h.0) (lock_second wb lo.user)) λ wl.
          transfer-Triple wb wl _ _ _ _ _ (
            Keeps-bind _ _ (Keeps-modify _ (λ s h. h)) λ _.
              Keeps-bind _ _ (user_row-Sound _) (λ loser. credit_cashback_for_loss-Sound loser _ _))

  pub settle_fill-Sound :
      (k : ℕ) (result : Selection) (rate : Percent) → Keeps Sound (settle_fill k result rate)
  unfolding settle_fill
  settle_fill-Sound k result rate = search (keeps_rules, fill_row-Sound, settle_pending_fill-Sound)

  void_pending_fill-Sound : (f : ExchangeFill) → Keeps Sound (void_pending_fill f)
  unfolding void_pending_fill save_wallet
  void_pending_fill-Sound f = Keeps-bind _ _ (order_row-Sound f.back_order) λ bo.
      Keeps-bind _ _ (order_row-Sound f.lay_order) λ lo. bind-Triple (lock-Triple bo.user) λ wb.
        bind-Triple (before (λ s h. h.0) (lock_second wb lo.user)) λ wl.
          let vs = changed_wallets wb (release_of back bo f) wl (release_of lay lo f) in
          bind-Triple
            {Q = λ _ s. IsSound (put_row Wallet.user vs.1 s.wallets) s.transactions s.credits}
            (modify-Triple _ (λ s h. release_pair wb wl _ _ h.0.1 h.1.1 h.0.0))
            λ _.
              bind-Triple {Q = λ _. Sound} (modify-Triple _ (λ s h. h))
                (λ _. Keeps-modify _ (λ s h. h))

  pub void_fill-Sound : (k : ℕ) → Keeps Sound (void_fill k)
  unfolding void_fill
  void_fill-Sound k = search (keeps_rules, fill_row-Sound, void_pending_fill-Sound)

  void_fills-Sound : (ks : List ℕ) → Keeps Sound (void_fills ks)
  unfolding void_fills
  void_fills-Sound [] = Keeps-pure tt
  void_fills-Sound (k ∷ ks) = Keeps-bind _ _ (void_fill-Sound k) (λ _. void_fills-Sound ks)

  settle_fills-Sound :
      (ks : List ℕ) (result : Selection) (rate : Percent)
      → Keeps Sound (settle_fills ks result rate)
  unfolding settle_fills
  settle_fills-Sound [] result rate = Keeps-pure tt
  settle_fills-Sound (k ∷ ks) result rate =
      Keeps-bind _ _ (settle_fill-Sound k result rate) (λ _. settle_fills-Sound ks result rate)

  release_remainder-Sound : (o : ExchangeOrder) → Keeps Sound (release_remainder o)
  unfolding release_remainder
  release_remainder-Sound o = Keeps-if _ _ _ (Keeps-pure tt) (
      bind-Triple (lock-Triple o.user)
        λ w. before (λ s h. h.0) (reserve-Triple w (add_to_reserved _ w) refl refl refl))

  mark_order-Sound : (o : ExchangeOrder) (status : OrderStatus) → Keeps Sound (mark_order o status)
  unfolding mark_order
  mark_order-Sound o status = Keeps-modify _ (λ s h. h)

  close_order-Sound : (k : ℕ) (status : OrderStatus) → Keeps Sound (close_order k status)
  unfolding close_order
  close_order-Sound k status =
      search (keeps_rules, order_row-Sound, release_remainder-Sound, mark_order-Sound) depth 8

  close_orders-Sound : (ks : List ℕ) (status : OrderStatus) → Keeps Sound (close_orders ks status)
  unfolding close_orders
  close_orders-Sound [] status = Keeps-pure tt
  close_orders-Sound (k ∷ ks) status =
      Keeps-bind _ _ (close_order-Sound k status) (λ _. close_orders-Sound ks status)

  close_book-Sound : (m : Match) (status : OrderStatus) → Keeps Sound (close_book m status)
  close_book-Sound m status = Keeps-bind _ _ (Keeps-gets _) (λ ids. close_orders-Sound ids status)

  settle_finished-Sound : (m : Match) (o : Option Selection) → Keeps Sound (settle_finished m o)
  settle_finished-Sound m none = Keeps-pure tt
  settle_finished-Sound m (some result) = Keeps-bind _ _ (Keeps-gets _) λ rate.
      Keeps-bind _ _ (Keeps-gets _) λ ids.
        Keeps-bind _ _ (settle_fills-Sound ids result rate)
          λ _. close_book-Sound m OrderStatus.settled

  by_status-Sound : (m : Match) (st : MatchStatus) → Keeps Sound (exchange_by_status m st)
  by_status-Sound m scheduled = Keeps-pure tt
  by_status-Sound m live = Keeps-pure tt
  by_status-Sound m finished = settle_finished-Sound m (result_of m)
  by_status-Sound m cancelled =
      Keeps-bind _ _ (Keeps-gets _)
        λ ids. Keeps-bind _ _ (void_fills-Sound ids) λ _. close_book-Sound m OrderStatus.void

  pub settle_exchange_for_match-Sound : (m : Match) → Keeps Sound (settle_exchange_for_match m)
  unfolding settle_exchange_for_match
  settle_exchange_for_match-Sound m = by_status-Sound m m.status
