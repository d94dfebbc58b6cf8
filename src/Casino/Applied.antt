-- ===== src/Casino/Applied.antt =====
-- A callback that comes again.
use quickpaybet.Prelude.{
  ℕ, ◌≡◌, refl, ◌∙◌, ap, Bool, true, false, Option, none, some, ==_refl, arith, if◌then◌else◌,
}
use quickpaybet.Models.Money.{Money}
use quickpaybet.Models.Accounts.{User}
use quickpaybet.Models.Payments.{Text}
use quickpaybet.Models.Casino.{CasinoGame, CasinoSession}
use quickpaybet.Models.Database.{Database}
use quickpaybet.Action.{ok, pure, returns, ◌▸◌, ◌>>=◌}
use quickpaybet.Action.Triple.{
  read_then-Triple, read-Triple, Triple, Ends, Keeps, keeps_rules, bind-Triple, forget,
  undone-Triple, modify-Triple, when_done, after, Keeps-gets,
}
use quickpaybet.Wallet.Unread.{
  Unread, lock_wallet-Keeps, save_wallet-Keeps, record_transaction-Keeps,
}
use quickpaybet.Casino.Rounds.{
  Settlement, member_of, game_of, open_session, has_serial, record_round, credit_win, apply_round,
  handle_round_settlement,
}

-- What a round's settlement reads: who, what game, which session, which rounds were settled.
abbrev SameReads : Database → Database → Type 0
SameReads s t = (t.users ≡ s.users) × (t.games ≡ s.games) × (t.sessions ≡ s.sessions)

abbrev Any : Database → Type 0
Any s = Unit

module _ (s : Database) where
  SameReads-Unread : Unread (SameReads s)
  SameReads-Unread = record { with_wallets = λ t ws i. i; with_transactions = λ t ts i. i }

  abbrev Recorded : Text → Database → Type 0
  Recorded k t = SameReads s t × (has_serial k t ≡ true)

  Recorded-Unread : (k : Text) → Unread (Recorded k)
  Recorded-Unread k = record { with_wallets = λ t ws i. i; with_transactions = λ t ts i. i }

  credit_win-Recorded : (k : Text) (u : ℕ) (a : Money) → Keeps (Recorded k) (credit_win u a)
  unfolding credit_win
  credit_win-Recorded k u a =
      search
        (
          keeps_rules,
          lock_wallet-Keeps (Recorded-Unread k),
          save_wallet-Keeps (Recorded-Unread k),
          record_transaction-Keeps (Recorded-Unread k),
        )
        depth 8

  apply_round-Recorded :
      (user : User) (session : CasinoSession) (r : Settlement)
      → Triple Any (SameReads s) (apply_round user session r) (λ _. Recorded r.serial_number)
  unfolding apply_round record_round
  apply_round-Recorded user session r = bind-Triple (forget (λ t h. tt) (Keeps-gets _)) λ converted.
      bind-Triple {Q = λ _. Recorded r.serial_number}
        (modify-Triple _ (λ t h. (h, rw ==_refl refl)))
        (λ _. forget (λ t h. tt) (credit_win-Recorded r.serial_number user.id converted.0))

  member-same : (acc : Option ℕ) (t : Database) → SameReads s t → member_of acc t ≡ member_of acc s
  member-same none t h = refl
  member-same (some u) t h = rw h.0 refl

-- A round that was applied: its player, its game and an open session are there, and its serial number.
record Processed (r : Settlement) (t : Database) : Type 0 where
  user : User
  game : CasinoGame
  session : CasinoSession
  is_member : member_of r.member_account t ≡ some user
  is_game : game_of r.game_uid t ≡ some game
  has_session : open_session user.id game.id t ≡ some session
  is_recorded : has_serial r.serial_number t ≡ true

-- Its callback does nothing when it comes again.
repeat_round :
    (r : Settlement) (t : Database) → Processed r t → handle_round_settlement r t ≡ (ok tt, t)
unfolding handle_round_settlement ◌>>=◌
repeat_round r t p = ground (arith, p.is_member, p.is_game, p.has_session, p.is_recorded)

module _ (r : Settlement) (s : Database) where
  found_round :
      (user : User) (game : CasinoGame) (session : CasinoSession) (t : Database)
      → member_of r.member_account s ≡ some user
      → game_of r.game_uid s ≡ some game
      → open_session user.id game.id s ≡ some session
      → Recorded s r.serial_number t
      → Processed r t
  found_round user game session t m g o (same, recorded) = record {
    user = user;
    game = game;
    session = session;
    is_member = member-same s r.member_account t same ∙ m;
    is_game = rw same.1 g;
    has_session = rw same.2 o;
    is_recorded = recorded;
  }

  handle_round_settlement-Processed :
      Triple Any (λ t. t ≡ s) (handle_round_settlement r) (λ _. Processed r)
  unfolding handle_round_settlement
  handle_round_settlement-Processed =
      read_then-Triple s (member_of r.member_account) _ _ tt λ user m.
        read_then-Triple s (game_of r.game_uid) _ _ tt λ game g.
          undone-Triple {J = Any} (λ t h. tt)
            (read_then-Triple s (open_session user.id game.id) _ _ tt λ session o.
              read-Triple s (has_serial r.serial_number) _ (record {
                run = λ t same.
                    rw same (branch user game session m g o (has_serial r.serial_number s) refl);
              }))
    where
      branch :
          (user : User) (game : CasinoGame) (session : CasinoSession)
          → member_of r.member_account s ≡ some user
          → game_of r.game_uid s ≡ some game
          → open_session user.id game.id s ≡ some session
          → (b : Bool) → has_serial r.serial_number s ≡ b
          → Ends Any (λ _. Processed r) ((if b then pure tt else apply_round user session r) s)
      branch user game session m g o true e =
          unfold pure in found_round user game session s m g o ((refl, refl, refl), e)
      branch user game session m g o false e =
          (after (λ _ t h. found_round user game session t m g o h)
              (apply_round-Recorded s user session r)).run
            s (refl, refl, refl)

-- A callback for a settled round that returned is final: the same callback again returns and changes no table, so a win is credited once.
pub handle_round_settlement-once :
    (r : Settlement) (s : Database)
    → returns (handle_round_settlement r) s ≡ ok tt
    → let s' = s ▸ handle_round_settlement r in
      (returns (handle_round_settlement r) s' ≡ ok tt) × (s' ▸ handle_round_settlement r ≡ s')
handle_round_settlement-once r s done =
    let again =
      repeat_round r (s ▸ handle_round_settlement r)
        (when_done (handle_round_settlement-Processed r s) s refl done) in
    (ap (λ x. x.0) again, ap (λ x. x.1) again)
