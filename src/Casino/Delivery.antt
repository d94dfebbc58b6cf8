-- ===== src/Casino/Delivery.antt =====
-- Deliveries of wallet events, some of them more than once, beside players who are given each event once.
use quickpaybet.Prelude.{
  ℕ, ◌≡◌, refl, sym, ap, ◌⊎◌, ◌∙◌, true, false, ◌||◌, Option, none, some, List, [], ◌∷◌, arith,
  Bool-cases, Option-cases, inl, inr, if◌then◌else◌, ◌==◌, ==_ne, ==_refl,
}
use quickpaybet.Prelude.Int.{◌+ℤ◌, ◌-ℤ◌, ltb_ℤ}
use quickpaybet.Prelude.Table.{get_row, put_row, get-put_at, get-put_ne, key-get}
use native.Mathlib.Decide.{ℕ_discrete as dec_eq}
use quickpaybet.Models.Money.{Money}
use quickpaybet.Models.Accounts.{User}
use quickpaybet.Models.Wallets.{Wallet, available_balance}
use quickpaybet.Models.Payments.{Text}
use quickpaybet.Models.Casino.{EventAction, debit, credit}
use quickpaybet.Models.Database.{Database}
use quickpaybet.Action.{◌▸◌, ◌>>=◌}
use quickpaybet.Wallet.Ledger.{wallet_of, lock_wallet}
use quickpaybet.Wallet.Rates.{convert_usd_to_wallet_currency}
use quickpaybet.Casino.Rounds.{member_of}
use quickpaybet.Casino.Seamless.{
  WaijaEvent, has_call, resolve_waija_user, in_usd, apply_event, handle_waija_wallet_event,
}
use quickpaybet.Casino.Once.{Players, players, enter, mark, player_of, enter_once, enter_all}

-- What the callbacks do with a sequence of deliveries.
unfoldable pub deliver : List WaijaEvent → Database → Database
deliver [] s = s
deliver (e ∷ es) s = deliver es (s ▸ handle_waija_wallet_event e)

EventAction-cases : (a : EventAction) → (a ≡ debit) ⊎ (a ≡ credit)
EventAction-cases debit = inl refl
EventAction-cases credit = inr refl

same_players :
    (x y : Players)
    → x.users ≡ y.users
    → x.fx ≡ y.fx
    → ((u : ℕ) → x.wallet u ≡ y.wallet u)
    → ((k : Text) → x.applied k ≡ y.applied k)
    → x ≡ y
same_players x y p q h g =
    λ i. record { users = p i; fx = q i; wallet = λ u. h u i; applied = λ k. g k i }

player_of-member : (o : Option ℕ) (s : Database) → player_of o s.users ≡ member_of o s
player_of-member none s = refl
player_of-member (some u) s = refl

stranger :
    (e : WaijaEvent) (s : Database)
    → member_of e.username s ≡ none
    → s ▸ handle_waija_wallet_event e ≡ s
unfolding handle_waija_wallet_event resolve_waija_user ◌>>=◌
stranger e s h = ground (arith, h)

walletless :
    (e : WaijaEvent) (s : Database) (user : User)
    → member_of e.username s ≡ some user
    → wallet_of user.id s ≡ none
    → s ▸ handle_waija_wallet_event e ≡ s
unfolding handle_waija_wallet_event resolve_waija_user lock_wallet ◌>>=◌
walletless e s user h k = ground (arith, h, k)

known :
    (e : WaijaEvent) (s : Database) (user : User) (w : Wallet)
    → member_of e.username s ≡ some user
    → wallet_of user.id s ≡ some w
    → has_call e.call_id s ≡ true
    → s ▸ handle_waija_wallet_event e ≡ s
unfolding handle_waija_wallet_event resolve_waija_user lock_wallet in_usd ◌>>=◌
known e s user w h k r = ground (arith, h, k, r)

-- A delivery of a recorded call id changes nothing, whoever it names.
recorded_unchanged :
    (e : WaijaEvent) (s : Database)
    → has_call e.call_id s ≡ true
    → s ▸ handle_waija_wallet_event e ≡ s
recorded_unchanged e s r = elim (Option-cases (member_of e.username s)) [
  | inl h ↦ stranger e s h
  | inr (user, h) ↦ elim (Option-cases (wallet_of user.id s)) [
    | inl k ↦ walletless e s user h k
    | inr (w, k) ↦ known e s user w h k r
  ]
]

-- The state after an event that was entered: `v` is the player's wallet, and its call id is recorded.
record Entered (e : WaijaEvent) (u : ℕ) (v : Wallet) (s t : Database) : Type 0 where
  users : t.users ≡ s.users
  fx : t.fx_config ≡ s.fx_config
  wallets : (i : ℕ) → get_row Wallet.user i t.wallets ≡ (if u == i then some v else wallet_of i s)
  calls : (k : Text) → has_call k t ≡ ((e.call_id == k) || has_call k s)

-- Reading a wallet after the player's is saved.
read_saved :
    (u i : ℕ) (w v : Wallet) (ws : List Wallet)
    → get_row Wallet.user u ws ≡ some w
    → v.user ≡ w.user
    → get_row Wallet.user i (put_row Wallet.user v ws)
      ≡ (if u == i then some v else get_row Wallet.user i ws)
read_saved u i w v ws found same = elim (dec_eq u i) [
  | yes q ↦ rw (sym q, ==_refl) (get-put_at Wallet.user u w v ws found same)
  | no q ↦ rw (==_ne q) (
      get-put_ne Wallet.user i v ws
        (λ (r : v.user ≡ i). q (sym (key-get Wallet.user u w ws found) ∙ sym same ∙ r)))
]

read_unsaved :
    (u i : ℕ) (w : Wallet) (ws : List Wallet)
    → get_row Wallet.user u ws ≡ some w
    → get_row Wallet.user i ws ≡ (if u == i then some w else get_row Wallet.user i ws)
read_unsaved u i w ws found = elim (dec_eq u i) [
  | yes q ↦ rw (sym q, ==_refl) found
  | no q ↦ rw (==_ne q) refl
]

module _ (e : WaijaEvent) (s : Database) (user : User) (w : Wallet)
    (is_member : member_of e.username s ≡ some user) (is_wallet : wallet_of user.id s ≡ some w)
    (is_new : has_call e.call_id s ≡ false) where
  abbrev amount : Money
  amount = (convert_usd_to_wallet_currency s.fx_config user e.amount).0

  saved :
      (t : Database) (i : ℕ) (v : Wallet)
      → v.user ≡ w.user
      → t.wallets ≡ put_row Wallet.user v s.wallets
      → wallet_of i t ≡ (if user.id == i then some v else wallet_of i s)
  saved t i v same h = rw h (read_saved user.id i w v s.wallets is_wallet same)

  unsaved :
      (t : Database) (i : ℕ)
      → t.wallets ≡ s.wallets
      → wallet_of i t ≡ (if user.id == i then some w else wallet_of i s)
  unsaved t i h = rw h (read_unsaved user.id i w s.wallets is_wallet)

  credited-Entered :
      e.action ≡ credit
      → Entered e user.id
          (record w { balance = w.balance +ℤ amount })
          s
          (s ▸ handle_waija_wallet_event e)
  unfolding handle_waija_wallet_event resolve_waija_user lock_wallet apply_event in_usd ◌>>=◌
  credited-Entered is_credit = record {
    users = ground (arith, is_member, is_wallet, is_new, is_credit);
    fx = ground (arith, is_member, is_wallet, is_new, is_credit);
    wallets = λ i.
        saved (s ▸ handle_waija_wallet_event e) i (record w { balance = w.balance +ℤ amount }) refl
          (ground (arith, is_member, is_wallet, is_new, is_credit));
    calls = λ k. ground (arith, is_member, is_wallet, is_new, is_credit);
  }

  debited-Entered :
      e.action ≡ debit
      → e.is_bonus_fs ≡ false
      → ltb_ℤ (w.balance -ℤ w.reserved_balance) amount ≡ false
      → Entered e user.id
          (record w { balance = w.balance -ℤ amount })
          s
          (s ▸ handle_waija_wallet_event e)
  unfolding handle_waija_wallet_event resolve_waija_user lock_wallet apply_event in_usd
      available_balance ◌>>=◌
  debited-Entered is_debit paid enough = record {
    users = ground (arith, is_member, is_wallet, is_new, is_debit, paid, enough);
    fx = ground (arith, is_member, is_wallet, is_new, is_debit, paid, enough);
    wallets = λ i.
        saved (s ▸ handle_waija_wallet_event e) i (record w { balance = w.balance -ℤ amount }) refl
          (ground (arith, is_member, is_wallet, is_new, is_debit, paid, enough));
    calls = λ k. ground (arith, is_member, is_wallet, is_new, is_debit, paid, enough);
  }

  refused-unchanged :
      e.action ≡ debit
      → e.is_bonus_fs ≡ false
      → ltb_ℤ (w.balance -ℤ w.reserved_balance) amount ≡ true
      → s ▸ handle_waija_wallet_event e ≡ s
  unfolding handle_waija_wallet_event resolve_waija_user lock_wallet apply_event in_usd
      available_balance ◌>>=◌
  refused-unchanged is_debit paid short =
      ground (arith, is_member, is_wallet, is_new, is_debit, paid, short)

  -- A free round's debit only records the event.
  free-Entered :
      e.action ≡ debit
      → e.is_bonus_fs ≡ true
      → Entered e user.id w s (s ▸ handle_waija_wallet_event e)
  unfolding handle_waija_wallet_event resolve_waija_user lock_wallet apply_event in_usd ◌>>=◌
  free-Entered is_debit free = record {
    users = ground (arith, is_member, is_wallet, is_new, is_debit, free);
    fx = ground (arith, is_member, is_wallet, is_new, is_debit, free);
    wallets = λ i.
        unsaved (s ▸ handle_waija_wallet_event e) i
          (ground (arith, is_member, is_wallet, is_new, is_debit, free));
    calls = λ k. ground (arith, is_member, is_wallet, is_new, is_debit, free);
  }

  enter_once_known :
      enter_once e (players s)
      ≡ mark e.call_id user.id (enter e.action e.is_bonus_fs amount w) (players s)
  unfolding enter_once
  enter_once_known = rw (is_new, player_of-member e.username s, is_member, is_wallet) refl

  Entered-players :
      (v : Wallet) (t : Database)
      → Entered e user.id v s t
      → enter e.action e.is_bonus_fs amount w ≡ some v
      → players t ≡ enter_once e (players s)
  Entered-players v t h q =
      same_players (players t) (mark e.call_id user.id (some v) (players s)) h.users h.fx h.wallets
        h.calls
      ∙ sym (enter_once_known ∙ ap (λ o. mark e.call_id user.id o (players s)) q)

  new-players : players (s ▸ handle_waija_wallet_event e) ≡ enter_once e (players s)
  new-players = elim (EventAction-cases e.action) [
    | inr c ↦ Entered-players _ _ (credited-Entered c) (rw c refl)
    | inl d ↦ elim (Bool-cases e.is_bonus_fs) [
      | inl free ↦ Entered-players _ _ (free-Entered d free) (rw (d, free) refl)
      | inr paid ↦ elim (Bool-cases (ltb_ℤ (w.balance -ℤ w.reserved_balance) amount)) [
        | inl short ↦
            ap players (refused-unchanged d paid short)
            ∙ sym (enter_once_known ∙ rw (d, paid, short) refl)
        | inr enough ↦
            Entered-players _ _ (debited-Entered d paid enough) (rw (d, paid, enough) refl)
      ]
    ]
  ]

handle-players :
    (e : WaijaEvent) (s : Database)
    → players (s ▸ handle_waija_wallet_event e) ≡ enter_once e (players s)
unfolding enter_once
handle-players e s = elim (Bool-cases (has_call e.call_id s)) [
  | inl r ↦ rw (recorded_unchanged e s r, r) refl
  | inr new ↦ elim (Option-cases (member_of e.username s)) [
    | inl h ↦ rw (stranger e s h, new, player_of-member e.username s, h) refl
    | inr (user, h) ↦ elim (Option-cases (wallet_of user.id s)) [
      | inl k ↦ rw (walletless e s user h k, new, player_of-member e.username s, h, k) refl
      | inr (w, k) ↦ new-players e s user w h k new
    ]
  ]
]

-- After any sequence of wallet events, repeated and in any order, all wallets and the set of applied call ids are what the specification has, whose players are given each event once: a call id that was applied changes nothing, a free round's debit moves no money, another debit moves its amount if it is at most what is not reserved and is refused otherwise, and a win moves its amount.
pub deliver-players :
    (es : List WaijaEvent) (s : Database) → players (deliver es s) ≡ enter_all es (players s)
unfolding deliver enter_all
deliver-players [] s = refl
deliver-players (e ∷ es) s =
    deliver-players es (s ▸ handle_waija_wallet_event e) ∙ ap (enter_all es) (handle-players e s)
