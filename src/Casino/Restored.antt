-- ===== src/Casino/Restored.antt =====
-- A launch that the provider does not take.
use quickpaybet.Prelude.{ℕ, ◌≡◌, refl, Bool, true, false, Option, none, some, if◌then◌else◌, arith}
use quickpaybet.Prelude.Int.{ℤ, pos, ◌+ℤ◌, ◌-ℤ◌, int_laws}
use quickpaybet.Prelude.Table.{put_row, put-put, get-put_at, get-put_same}
use quickpaybet.Models.Money.{Money}
use quickpaybet.Models.Accounts.{User}
use quickpaybet.Models.Wallets.{Wallet}
use quickpaybet.Models.Payments.{Text}
use quickpaybet.Models.Casino.{CasinoConfig, CasinoGame}
use quickpaybet.Models.Database.{Database}
use quickpaybet.Action.{Done, Result, Error, ok, err, or_raise, does_not_exist, returns, ◌▸◌, ◌>>=◌}
use quickpaybet.Action.Triple.{
  Triple, Ends, bind-Triple, undone-Triple, raise_if-Triple, or_raise-Triple, read-Triple,
  raise-Triple, raised-Ends, given, before, modify-Triple,
}
use quickpaybet.Wallet.Ledger.{wallet_of, lock_wallet, save_wallet}
use quickpaybet.Wallet.Rates.{convert_usd_to_wallet_currency}
use quickpaybet.Casino.Launch.{
  CasinoProvider, Converted, reserve, unreserve, reserve_launch, release_launch, finish_launch,
  launch_upfront, launch_with, launch_seamless, launch_game, in_provider_currency,
}

-- Every wallet is what it was in `s`, and so are the sessions and the ledger.
abbrev pub Restored : Database → Database → Type 0
Restored s t =
    ((v : ℕ) → wallet_of v t ≡ wallet_of v s)
    × (t.sessions ≡ s.sessions)
    × (t.transactions ≡ s.transactions)

abbrev Any : Database → Type 0
Any s = Unit

release_launch-runs :
    (u : ℕ) (a : Money) (w : Wallet) (t : Database)
    → wallet_of u t ≡ some w
    → release_launch u a t
      ≡ (ok tt, record t { wallets = put_row Wallet.user (unreserve a w) t.wallets })
unfolding release_launch lock_wallet save_wallet ◌>>=◌
release_launch-runs u a w t found = ground (arith, found)

module _ (s : Database) where
  same_as : (t : Database) → t ≡ s → Restored s t
  same_as t e = rw e ((λ v. refl), refl, refl)

  -- One wallet of `s` has `a` more reserved.
  abbrev Reserved : ℕ → Money → Database → Type 0
  Reserved u a t =
      (w : Wallet) × (wallet_of u s ≡ some w)
      × (t ≡ record s { wallets = put_row Wallet.user (reserve a w) s.wallets })

  reserve_launch-Reserved :
      (u : ℕ) (a : Money)
      → Triple (Restored s) (λ t. t ≡ s) (reserve_launch u a) (λ _. Reserved u a)
  unfolding reserve_launch lock_wallet save_wallet
  reserve_launch-Reserved u a = undone-Triple {J = Any} same_as (
      bind-Triple
        (read-Triple s (wallet_of u) _
          (or_raise-Triple {P = λ t. t ≡ s} (wallet_of u s) does_not_exist (λ t h. tt)))
        λ w. given λ found.
          bind-Triple (raise_if-Triple _ _ (λ t h. tt))
            λ _. before (λ t h. h.0) (modify-Triple _ (λ t e. (w, found, rw e refl))))

  unreserve-reserve : (a : Money) (w : Wallet) → unreserve a (reserve a w) ≡ w
  unreserve-reserve a w =
      let e : w.reserved_balance +ℤ a -ℤ a ≡ w.reserved_balance = omega int_laws in rw e

  unreserved :
      (u : ℕ) (a : Money) (t : Database) → Reserved u a t → Restored s (t ▸ release_launch u a)
  unreserved u a t (w, found, e) =
      let w' = reserve a w in
      let stored = get-put_at Wallet.user u w w' s.wallets found refl in
      rw (◌▸◌, release_launch-runs u a w' t (rw e stored), e)
        (
          λ v.
              rw (put-put Wallet.user w' (unreserve a w') s.wallets refl, unreserve-reserve a w)
                (get-put_same Wallet.user u v w s.wallets found),
          refl,
          refl,
        )

  finish_launch-Restored :
      (user : User) (game : CasinoGame) (config : CasinoConfig) (usd : Money) (amount : ℤ)
      (converted : Converted)
      → Triple
          (Restored s)
          (Reserved user.id converted.0)
          (finish_launch user game config usd amount converted none)
          (λ _ _. ⊥)
  unfolding finish_launch
  finish_launch-Restored user game config usd amount converted =
      bind-Triple {Q = λ _. Restored s}
        (record {
          run = λ t h.
              all (release_launch user.id converted.0 t) (unreserved user.id converted.0 t h);
        })
        (λ _. raise-Triple _ (λ t h. h))
    where
      all : (r : Result Done × Database) → Restored s r.1 → Ends (Restored s) (λ _. Restored s) r
      all (ok x, t) h = h
      all (err e, t) h = h

  module _ (provider : CasinoProvider) (user : User) (game : CasinoGame)
      (raises : (b : ℤ) (code : Text)
        → provider.play_address user.id b game.game_uid code ≡ none) where
    launch_upfront-Restored :
        (config : CasinoConfig) (usd : Money)
        → Triple (Restored s) (λ t. t ≡ s) (launch_upfront provider user game config usd) (λ _ _. ⊥)
    unfolding launch_upfront
    launch_upfront-Restored config usd =
        let converted = convert_usd_to_wallet_currency s.fx_config user usd in
        let amount = in_provider_currency config usd in
        bind-Triple (raise_if-Triple _ _ same_as) λ _.
          bind-Triple (before (λ t h. h.0) (raise_if-Triple _ _ same_as)) λ _.
            before (λ t h. h.0)
              (read-Triple s (λ t. convert_usd_to_wallet_currency t.fx_config user usd) _
                (bind-Triple (reserve_launch-Reserved user.id converted.0) λ _.
                  rw (raises amount config.provider_currency_code)
                    (finish_launch-Restored user game config usd amount converted)))

    launch_with-Restored :
        (config : CasinoConfig) (usd : Option Money)
        → Triple (Restored s) (λ t. t ≡ s) (launch_with provider user game config usd) (λ _ _. ⊥)
    unfolding launch_with
    launch_with-Restored config none = raise-Triple _ same_as
    launch_with-Restored config (some usd) = launch_upfront-Restored config usd

    launch_seamless-Restored :
        (config : CasinoConfig)
        → Triple (Restored s) (λ t. t ≡ s) (launch_seamless provider user game config) (λ _ _. ⊥)
    unfolding launch_seamless or_raise ◌>>=◌
    launch_seamless-Restored config =
        rw (raises (pos 0) config.provider_currency_code) (record { run = same_as })

    branch-Restored :
        (upfront : Bool) (config : CasinoConfig) (usd : Option Money)
        → Triple
            (Restored s)
            (λ t. t ≡ s)
            (if upfront
              then launch_with provider user game config usd
              else launch_seamless provider user game config)
            (λ _ _. ⊥)
    branch-Restored true config usd = launch_with-Restored config usd
    branch-Restored false config usd = launch_seamless-Restored config

    launch_game-Restored :
        (usd : Option Money)
        → Triple (Restored s) (λ t. t ≡ s) (launch_game provider user game usd) (λ _ _. ⊥)
    unfolding launch_game
    launch_game-Restored usd =
        read-Triple s (λ t. t.casino_config) _
          (bind-Triple (raise_if-Triple _ _ same_as) λ _.
            bind-Triple (before (λ t h. h.0) (raise_if-Triple _ _ same_as)) λ _.
              before (λ t h. h.0)
                (branch-Restored provider.requires_upfront_balance s.casino_config usd))

-- When the provider's call raises an exception, launching a game ends in an error, and every wallet, its reserved balance included, the sessions and the ledger are as they were.
pub failed_launch_restores :
    (provider : CasinoProvider) (user : User) (game : CasinoGame) (usd : Option Money)
    (s : Database)
    → ((b : ℤ) (code : Text) → provider.play_address user.id b game.game_uid code ≡ none)
    → let m = launch_game provider user game usd in
      ((e : Error) × (returns m s ≡ err e)) × Restored s (s ▸ m)
failed_launch_restores provider user game usd s raises =
    raised-Ends (Restored s) _ ((launch_game-Restored s provider user game raises usd).run s refl)
