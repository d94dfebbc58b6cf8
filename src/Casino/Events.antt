-- ===== src/Casino/Events.antt =====
-- A wallet event that comes again, and what a debit leaves.
use quickpaybet.Prelude.{
  ℕ, ◌≡◌, refl, ◌∙◌, ap, Bool, true, false, Option, none, some, ==_refl, arith, if◌then◌else◌,
}
use quickpaybet.Prelude.Int.{◌+ℤ◌, ◌-ℤ◌, neg, ◌≤ℤ◌, ltb_ℤ→ge}
use quickpaybet.Prelude.Table.{get-put_at}
use mathlib.Core.Path.{subst}
use quickpaybet.Models.Money.{Money}
use quickpaybet.Models.Accounts.{User}
use quickpaybet.Models.Wallets.{Wallet, TxnType, available_balance}
use quickpaybet.Models.Casino.{CasinoGame, EventAction, debit, credit}
use quickpaybet.Models.Database.{Database}
use quickpaybet.Action.{does_not_exist, unknown_player, ok, gets, pure, atomic, returns, ◌▸◌, ◌>>=◌}
use quickpaybet.Action.Triple.{
  Triple, Ends, bind-Triple, undone-Triple, modify-Triple, returns-Triple, raise_if-Triple, given,
  after, or_raise-Triple, read-Triple, gets-Triple, answered,
}
use quickpaybet.Wallet.Ledger.{wallet_of, lock_wallet, save_wallet, record_transaction}
use quickpaybet.Wallet.Rates.{convert_wallet_currency_to_usd, convert_usd_to_wallet_currency}
use quickpaybet.Casino.Launch.{Converted}
use quickpaybet.Casino.Rounds.{member_of, game_of}
use quickpaybet.Casino.Seamless.{
  WaijaEvent, has_call, skips_cash, resolve_waija_user, in_usd, move_cash, record_event,
  apply_event, handle_waija_wallet_event,
}

abbrev Any : Database → Type 0
Any s = Unit

-- An event that was applied: its player, the player's wallet, and its call id.
record Applied (e : WaijaEvent) (user : User) (w : Wallet) (t : Database) : Type 0 where
  is_member : member_of e.username t ≡ some user
  is_wallet : wallet_of user.id t ≡ some w
  is_recorded : has_call e.call_id t ≡ true

repeat_event :
    (e : WaijaEvent) (user : User) (w : Wallet) (t : Database)
    → Applied e user w t
    → handle_waija_wallet_event e t
      ≡ (ok (convert_wallet_currency_to_usd t.fx_config user w.balance), t)
unfolding handle_waija_wallet_event resolve_waija_user lock_wallet in_usd ◌>>=◌
repeat_event e user w t p = ground (arith, p.is_member, p.is_wallet, p.is_recorded)

-- What an event does to its player's wallet.
abbrev pub Moved : Bool → EventAction → Money → Wallet → Wallet → Type 0
Moved true action a w v = v ≡ w
Moved false debit a w v = (v ≡ record w { balance = w.balance -ℤ a }) × (a ≤ℤ available_balance w)
Moved false credit a w v = v ≡ record w { balance = w.balance +ℤ a }

module _ (s : Database) (user : User) where
  -- The wallet in hand is the one that is stored, and no user has changed.
  abbrev InHand : Wallet → Database → Type 0
  InHand w t = (wallet_of user.id t ≡ some w) × (t.users ≡ s.users)

  saved-InHand :
      (kind : TxnType) (a : Money) (w v : Wallet) {F : Wallet → Type 0}
      → v.user ≡ w.user
      → F v
      → Triple Any
          (InHand w)
          (save_wallet v >>= λ _. record_transaction v kind a >>= λ _. pure v)
          (λ v t. InHand v t × F v)
  unfolding save_wallet record_transaction ◌>>=◌
  saved-InHand kind a w v same f = record {
    run = λ t h. ((get-put_at Wallet.user user.id w v t.wallets h.0 same, h.1), f);
  }

  move_cash-Moved :
      (action : EventAction) (a : Money) (w : Wallet)
      → Triple Any
          (InHand w)
          (move_cash user action a w)
          (λ v t. InHand v t × Moved false action a w v)
  unfolding move_cash gets
  move_cash-Moved debit a w =
      bind-Triple {Q = λ _. InHand w} (unfold in_usd in record { run = λ t h. h }) λ usd.
        bind-Triple (raise_if-Triple _ _ (λ t h. tt)) λ _. given λ enough.
          saved-InHand TxnType.casino_bet (neg a) w (record w { balance = w.balance -ℤ a })
            {F = Moved false debit a w} refl (refl, ltb_ℤ→ge (available_balance w) a enough)
  move_cash-Moved credit a w =
      saved-InHand TxnType.casino_win a w (record w { balance = w.balance +ℤ a })
        {F = Moved false credit a w} refl refl

  maybe_move-Moved :
      (b : Bool) (action : EventAction) (a : Money) (w : Wallet)
      → Triple Any
          (InHand w)
          (if b then pure w else move_cash user action a w)
          (λ v t. InHand v t × Moved b action a w v)
  maybe_move-Moved true action a w = returns-Triple w (λ t h. (h, refl))
  maybe_move-Moved false action a w = move_cash-Moved action a w

  apply_event-Moved :
      (e : WaijaEvent) (game : Option CasinoGame) (converted : Converted) (w : Wallet)
      → Triple Any (InHand w) (apply_event user e game converted w) (λ v t.
        InHand v t × Moved (skips_cash e) e.action converted.0 w v × (has_call e.call_id t ≡ true))
  unfolding apply_event record_event
  apply_event-Moved e game converted w =
      bind-Triple (maybe_move-Moved (skips_cash e) e.action converted.0 w) λ v.
        bind-Triple
          {Q = λ _ t.
            InHand v t
            × Moved (skips_cash e) e.action converted.0 w v
            × (has_call e.call_id t ≡ true)}
          (modify-Triple _ (λ t h. (h.0, h.1, rw ==_refl refl))) λ _. returns-Triple v (λ t h. h)

member-users :
    (acc : Option ℕ) (s t : Database) → t.users ≡ s.users → member_of acc t ≡ member_of acc s
member-users none s t h = refl
member-users (some u) s t h = rw h refl

module _ (e : WaijaEvent) (s : Database) where
  -- The event's amount in the wallet's currency.
  abbrev pub in_wallet : User → Converted
  in_wallet user = convert_usd_to_wallet_currency s.fx_config user e.amount

  -- The player's wallet was `w` in `s` and is `v`; it has moved by the event, or the event was there.
  record Outcome (user : User) (w v : Wallet) (t : Database) : Type 0 where
    was : wallet_of user.id s ≡ some w
    member : member_of e.username s ≡ some user
    applied : Applied e user v t
    moved : has_call e.call_id s ≡ false → Moved (skips_cash e) e.action (in_wallet user).0 w v

  abbrev Ended : Wallet → Database → Type 0
  Ended v t = (user : User) × (w : Wallet) × Outcome user w v t

  block-Ended :
      (user : User) (game : Option CasinoGame)
      → member_of e.username s ≡ some user
      → Triple Any
          (λ t. t ≡ s)
          (atomic (
            lock_wallet user.id >>= λ w. gets (has_call e.call_id) >>= λ applied.
            if applied then pure w else apply_event user e game (in_wallet user) w))
          (λ v t. (w : Wallet) × Outcome user w v t)
  unfolding lock_wallet
  block-Ended user game member =
      undone-Triple {J = Any} (λ t h. tt)
        (bind-Triple
          (read-Triple s (wallet_of user.id) _
            (or_raise-Triple {P = λ t. t ≡ s} (wallet_of user.id s) does_not_exist (λ t h. tt)))
          λ w. given λ found.
            read-Triple s (has_call e.call_id) _
              (record { run = λ t same. rw same (branch w found (has_call e.call_id s) refl) }))
    where
      branch :
          (w : Wallet)
          → wallet_of user.id s ≡ some w
          → (b : Bool) → has_call e.call_id s ≡ b
          → Ends Any
              (λ v t. (w : Wallet) × Outcome user w v t)
              ((if b then pure w else apply_event user e game (in_wallet user) w) s)
      branch w found true known =
          unfold pure in
          (
            w,
            record {
              was = found;
              member = member;
              applied = record { is_member = member; is_wallet = found; is_recorded = known };
              moved = λ new. cc;
            },
          )
      branch w found false new =
          (after
              (λ v t h. (
                w,
                record {
                  was = found;
                  member = member;
                  applied = record {
                    is_member = member-users e.username s t h.0.1 ∙ member;
                    is_wallet = h.0.0;
                    is_recorded = h.2;
                  };
                  moved = λ _. h.1;
                },
              ))
              (apply_event-Moved s user e game (in_wallet user) w)).run
            s (found, refl)

  resolve-Triple :
      Triple Any
        (λ t. t ≡ s)
        (resolve_waija_user e.username)
        (λ user t. (t ≡ s) × (member_of e.username s ≡ some user))
  unfolding resolve_waija_user
  resolve-Triple =
      read-Triple s (member_of e.username) _
        (or_raise-Triple {P = λ t. t ≡ s} (member_of e.username s) unknown_player (λ t h. tt))

  -- What the call answers, beside what it leaves.
  abbrev Answered : Money → Database → Type 0
  Answered b t =
      (user : User) × (w : Wallet) × (v : Wallet) × Outcome user w v t
      × (convert_wallet_currency_to_usd t.fx_config user v.balance ≡ b)

  handle-Answered : Triple Any (λ t. t ≡ s) (handle_waija_wallet_event e) Answered
  unfolding handle_waija_wallet_event in_usd
  handle-Answered = bind-Triple resolve-Triple λ user. given λ member.
      read-Triple s (game_of e.game_uid) _ (
        read-Triple s (λ t. convert_usd_to_wallet_currency t.fx_config user e.amount) _
          (bind-Triple (block-Ended user (game_of e.game_uid s) member)
            λ v. after (λ b t h. (user, h.0.0, v, h.0.1, h.1)) (gets-Triple _)))

-- An event's callback that returned is final: the same callback again returns the same balance and changes no table, so no debit or win is applied twice.
pub handle_waija_wallet_event-once :
    (e : WaijaEvent) (s : Database) (b : Money)
    → returns (handle_waija_wallet_event e) s ≡ ok b
    → let s' = s ▸ handle_waija_wallet_event e in
      (returns (handle_waija_wallet_event e) s' ≡ ok b) × (s' ▸ handle_waija_wallet_event e ≡ s')
handle_waija_wallet_event-once e s b done =
    let (user, w, v, outcome, same) =
      answered Any (Answered e s) (handle_waija_wallet_event e s) b
        ((handle-Answered e s).run s refl) done in
    let again = repeat_event e user v (s ▸ handle_waija_wallet_event e) outcome.applied in
    (ap (λ x. x.0) again ∙ ap ok same, ap (λ x. x.1) again)

-- An event that was not applied before and whose callback returns moves its player's wallet by its amount in the wallet's currency: a debit takes it from the balance and takes at most what is available, a win adds it, and the debit of a free round leaves the wallet as it was; no reserved or locked money changes.
pub handle_waija_wallet_event-moves :
    (e : WaijaEvent) (s : Database) (b : Money) (user : User) (w : Wallet)
    → member_of e.username s ≡ some user
    → wallet_of user.id s ≡ some w
    → has_call e.call_id s ≡ false
    → returns (handle_waija_wallet_event e) s ≡ ok b
    → (v : Wallet) × (wallet_of user.id (s ▸ handle_waija_wallet_event e) ≡ some v)
      × Moved (skips_cash e) e.action (in_wallet e s user).0 w v
handle_waija_wallet_event-moves e s b user w member was new done =
    let (user', w', v, outcome, same) =
      answered Any (Answered e s) (handle_waija_wallet_event e s) b
        ((handle-Answered e s).run s refl) done in
    let one_user : user' ≡ user = cc (outcome.member, member) in
    let wallet' : wallet_of user.id s ≡ some w' =
      subst (λ u. wallet_of u.id s ≡ some w') one_user outcome.was in
    let one_wallet : w' ≡ w = cc (wallet', was) in
    (
      v,
      subst (λ u. wallet_of u.id (s ▸ handle_waija_wallet_event e) ≡ some v) one_user
          outcome.applied.is_wallet,
      subst (λ u. Moved (skips_cash e) e.action (in_wallet e s u).0 w v) one_user
          (subst (λ x. Moved (skips_cash e) e.action (in_wallet e s user').0 x v) one_wallet
            (outcome.moved new)),
    )
