-- ===== src/Bets/Once.antt =====
-- `_settle_parlay_if_ready`, called again on the same parlay.
use quickpaybet.Prelude.{ℕ, ◌≡◌, refl, sym, ap, ◌∙◌, Bool, true, false, some, List, inl, inr, ◌⊎◌}
use mathlib.Core.Path.{subst}
use quickpaybet.Prelude.Table.{get_row, key-get, get-put_self}
use quickpaybet.Models.Money.{Money, Column}
use quickpaybet.Models.Wallets.{TxnType}
use quickpaybet.Models.Bets.{Bet, ParlayBet, BetStatus, is_pending, pending, lost, won, refunded}
use quickpaybet.Models.Database.{Database}
use quickpaybet.Action.{ok, returns, ◌▸◌}
use quickpaybet.Action.Triple.{
  Ends, Triple, returns-Triple, bind-Triple, gets-Triple, or_raise-Triple, atomic-Triple,
  modify-Triple, before, after, forget, when_done, Keeps-bind, kept,
}
use quickpaybet.Bets.Money.{
  OnSlips, lock_wallet-Keeps, user_row-Keeps, post-Keeps, parlay_commission-Keeps,
  credit_cashback_for_loss-Keeps,
}
use quickpaybet.Bets.ParlaySettle.{
  mark_parlay, lose_parlay, pay_parlay, carry_out, settle_pending, settle_parlay_if_ready, verdict,
  legs_of,
}

-- The row of a parlay is this one.
abbrev HasRow : ParlayBet → List Bet → List ParlayBet → Type 0
HasRow p bets parlays = get_row ParlayBet.id p.id parlays ≡ some p

-- The row of parlay `k` is settled.
abbrev pub IsDone : ℕ → List Bet → List ParlayBet → Type 0
IsDone k bets parlays =
    (p : ParlayBet) × (get_row ParlayBet.id k parlays ≡ some p) × (is_pending p.status ≡ false)

abbrev Any : Database → Type 0
Any s = Unit

mark_parlay-Triple :
    (p : ParlayBet) (status : BetStatus)
    → is_pending status ≡ false
    → Triple Any (OnSlips (HasRow p)) (mark_parlay p status) (λ _. OnSlips (IsDone p.id))
unfolding mark_parlay
mark_parlay-Triple p status h = modify-Triple _ (λ s e. (
  record p { status = status },
  get-put_self ParlayBet.id (record p { status = status }) p s.parlays e,
  h,
))

module _ ⦃c : Column⦄ where
  lose_parlay-Triple :
      (p : ParlayBet) → Triple Any (OnSlips (HasRow p)) (lose_parlay p) (λ _. OnSlips (IsDone p.id))
  unfolding lose_parlay
  lose_parlay-Triple p =
      let F = IsDone p.id in
      bind-Triple (mark_parlay-Triple p lost refl) λ _.
        forget (λ s h. tt)
          (Keeps-bind _ _ (user_row-Keeps F p.user) λ user.
            Keeps-bind _ _ (parlay_commission-Keeps F user p)
              (λ _. credit_cashback_for_loss-Keeps F user p.stake 1))

  pay_parlay-Triple :
      (p : ParlayBet) (kind : TxnType) (amount : Money) (status : BetStatus)
      → is_pending status ≡ false
      → Triple Any
          (OnSlips (HasRow p))
          (pay_parlay p kind amount status)
          (λ _. OnSlips (IsDone p.id))
  unfolding pay_parlay
  pay_parlay-Triple p kind amount status h =
      let F = HasRow p in
      bind-Triple (forget (λ s e. tt) (lock_wallet-Keeps F p.user)) λ w.
        bind-Triple (forget (λ s e. tt) (post-Keeps F kind amount 1 w))
          (λ _. mark_parlay-Triple p status h)

  -- What a settlement of parlay `k` leaves: the state that it met, or the parlay settled.
  abbrev Left : Database → ℕ → Database → Type 0
  Left s k t = (t ≡ s) ⊎ OnSlips (IsDone k) t

  abbrev Met : Database → ParlayBet → Database → Type 0
  Met s p t = (t ≡ s) × (get_row ParlayBet.id p.id t.parlays ≡ some p)

  carry_out-Triple :
      (s : Database) (p : ParlayBet) (v : BetStatus)
      → Triple Any (Met s p) (carry_out p v) (λ _. Left s p.id)
  carry_out-Triple s p pending = returns-Triple tt (λ t h. inl h.0)
  carry_out-Triple s p lost = before (λ t h. h.1) (after (λ a t h. inr h) (lose_parlay-Triple p))
  carry_out-Triple s p refunded =
      before (λ t h. h.1) (after (λ a t h. inr h) (pay_parlay-Triple p _ _ refunded refl))
  carry_out-Triple s p won =
      before (λ t h. h.1) (after (λ a t h. inr h) (pay_parlay-Triple p _ _ won refl))

  settle_pending-Triple :
      (s : Database) (p : ParlayBet) (b : Bool)
      → Triple Any (Met s p) (settle_pending p b) (λ _. Left s p.id)
  settle_pending-Triple s p true =
      bind-Triple (gets-Triple (legs_of p))
        (λ legs. before (λ t h. h.0) (carry_out-Triple s p (verdict legs)))
  settle_pending-Triple s p false = returns-Triple tt (λ t h. inl h.0)

  settle_found :
      (s : Database) (k : ℕ) (p : ParlayBet) (t : Database)
      → t ≡ s
      → get_row ParlayBet.id k t.parlays ≡ some p
      → Ends Any (λ _. Left s k) (settle_pending p (is_pending p.status) t)
  settle_found s k p t e row =
      let key : p.id ≡ k = key-get ParlayBet.id k p t.parlays row in
      let met : Met s p t = (e, ap (λ j. get_row ParlayBet.id j t.parlays) key ∙ row) in
      subst (λ j. Ends Any (λ _. Left s j) (settle_pending p (is_pending p.status) t)) key
        ((settle_pending-Triple s p (is_pending p.status)).run t met)

  settle_parlay-Triple :
      (s : Database) (k : ℕ) → Triple Any (λ t. t ≡ s) (settle_parlay_if_ready k) (λ _. Left s k)
  unfolding settle_parlay_if_ready
  settle_parlay-Triple s k =
      atomic-Triple (λ t h. tt)
        (bind-Triple (gets-Triple _) λ found.
          bind-Triple (or_raise-Triple found _ (λ t h. tt))
            λ p. record { run = λ t h. settle_found s k p t h.0.0 (h.0.1 ∙ h.1) })

  -- A settled parlay is left alone.
  over_found :
      (s : Database) (k : ℕ) (q : ParlayBet) (t : Database)
      → OnSlips (IsDone k) s
      → t ≡ s
      → get_row ParlayBet.id k t.parlays ≡ some q
      → Ends (λ t. t ≡ s) (λ _ t. t ≡ s) (settle_pending q (is_pending q.status) t)
  over_found s k q t (p, row, over) e found =
      let same : some q ≡ some p = sym found ∙ ap (λ x. get_row ParlayBet.id k x.parlays) e ∙ row in
      let waits : is_pending q.status ≡ false = cc in
      rw waits ((returns-Triple tt (λ t h. h)).run t e)

  settle_parlay_done :
      (s : Database) (k : ℕ)
      → OnSlips (IsDone k) s
      → Triple (λ t. t ≡ s) (λ t. t ≡ s) (settle_parlay_if_ready k) (λ _ t. t ≡ s)
  unfolding settle_parlay_if_ready
  settle_parlay_done s k d =
      atomic-Triple (λ t h. h)
        (bind-Triple (gets-Triple _) λ found.
          bind-Triple (or_raise-Triple found _ (λ t h. h.0))
            λ q. record { run = λ t h. over_found s k q t d h.0.0 (h.0.1 ∙ h.1) })

  -- A settlement of a parlay that returned without an error is final: a second one leaves every table as the first left it, so nothing is paid or refunded twice.
  pub settle_parlay_once :
      (k : ℕ) (s : Database)
      → returns (settle_parlay_if_ready k) s ≡ ok tt
      → s ▸ settle_parlay_if_ready k ▸ settle_parlay_if_ready k ≡ s ▸ settle_parlay_if_ready k
  settle_parlay_once k s h = elim (when_done (settle_parlay-Triple s k) s refl h) [
    | inl e ↦ ap (λ t. t ▸ settle_parlay_if_ready k) e
    | inr d ↦ kept (settle_parlay_done _ k d) _ refl
  ]
