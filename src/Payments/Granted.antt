-- ===== src/Payments/Granted.antt =====
-- What `apply_reward_packages` leaves: claims, and the user's commission rate.
use quickpaybet.Prelude.{
  ℕ, ◌≡◌, refl, sym, Bool, true, false, ◌&&◌, ◌||◌, some, List, [], ◌∷◌, ◌++◌, All, any, select,
  map, ◌==◌, ==_refl, arith, Bool-cases, inl, inr, if◌then◌else◌,
}
use quickpaybet.Prelude.Int.{pos, ◌+ℤ◌, parts, int_laws, leb_ℤ}
use quickpaybet.Prelude.Table.{get_row, get-put_at}
use mathlib.Core.List.{append-nil}
use quickpaybet.Action.{◌▸◌, ◌>>=◌}
use quickpaybet.Models.Money.{Money, Percent}
use quickpaybet.Models.Accounts.{User}
use quickpaybet.Models.Payments.{RewardPackage, UserRewardClaim}
use quickpaybet.Models.Database.{Database}
use quickpaybet.Payments.Rewards.{
  has_claimed, qualifies, qualifying_packages, claim_of, add_bonuses, apply_reward_packages,
  save_claims, get_lifetime_deposit_total,
}

-- No user has two claims of one package.
abbrev pub ClaimedOnce : List UserRewardClaim → Type 0
ClaimedOnce [] = Unit
ClaimedOnce (c ∷ cs) = (has_claimed c.user c.package_id cs ≡ false) × ClaimedOnce cs

-- No two packages have one id.
abbrev pub has_package : ℕ → List RewardPackage → Bool
has_package k ps = any (λ p. p.id == k) ps

abbrev pub DistinctPackages : List RewardPackage → Type 0
DistinctPackages [] = Unit
DistinctPackages (p ∷ ps) = (has_package p.id ps ≡ false) × DistinctPackages ps

-- The bonuses of a user's claims.
abbrev pub bonus_total : ℕ → List UserRewardClaim → Percent
bonus_total u [] = pos 0
bonus_total u (c ∷ cs) =
    if c.user == u then c.commission_rate_bonus_applied +ℤ bonus_total u cs else bonus_total u cs

has_claimed-append :
    (u k : ℕ) (xs ys : List UserRewardClaim)
    → has_claimed u k (xs ++ ys) ≡ (has_claimed u k xs || has_claimed u k ys)
has_claimed-append u k [] ys = refl
has_claimed-append u k (x ∷ xs) ys = ground (arith, has_claimed-append u k xs ys)

module _ (u : ℕ) (total : Money) where
  -- A new claim of a package is there exactly if the package is.
  has_claimed-new :
      (k : ℕ) (ps : List RewardPackage)
      → has_claimed u k (map (claim_of u total) ps) ≡ has_package k ps
  has_claimed-new k [] = refl
  has_claimed-new k (p ∷ ps) = rw (has_claimed-new k ps, ==_refl) refl

  has_package-select :
      (k : ℕ) (q : RewardPackage → Bool) (ps : List RewardPackage)
      → has_package k ps ≡ false
      → has_package k (select q ps) ≡ false
  has_package-select k q [] h = refl
  has_package-select k q (p ∷ ps) h = ground (arith, has_package-select k q ps)

  DistinctPackages-select :
      (q : RewardPackage → Bool) (ps : List RewardPackage)
      → DistinctPackages ps
      → DistinctPackages (select q ps)
  DistinctPackages-select q [] h = tt
  DistinctPackages-select q (p ∷ ps) h = elim (Bool-cases (q p)) [
    | inl e ↦ rw e (has_package-select p.id q ps h.0, DistinctPackages-select q ps h.1)
    | inr e ↦ rw e (DistinctPackages-select q ps h.1)
  ]

  -- The bonuses that the loop adds are those of the new claims.
  add_bonuses-total :
      (rate : Percent) (ps : List RewardPackage)
      → add_bonuses rate ps ≡ rate +ℤ bonus_total u (map (claim_of u total) ps)
  unfolding add_bonuses
  add_bonuses-total rate [] = omega int_laws
  add_bonuses-total rate (p ∷ ps) =
      rw ==_refl (omega (int_laws, parts (add_bonuses-total (rate +ℤ p.commission_rate_bonus) ps)))

bonus_total-append :
    (u : ℕ) (xs ys : List UserRewardClaim)
    → bonus_total u (xs ++ ys) ≡ bonus_total u xs +ℤ bonus_total u ys
bonus_total-append u [] ys = omega int_laws
bonus_total-append u (x ∷ xs) ys = grind (int_laws, bonus_total-append u xs ys)

module _ (u : ℕ) (total : Money) where
  -- Nothing of `xs` is claimed again.
  abbrev Unclaimed : List UserRewardClaim → List RewardPackage → Type 0
  Unclaimed xs ps = All (λ p. has_claimed u p.id xs ≡ false) ps

  claim-fresh :
      (x : UserRewardClaim) (xs : List UserRewardClaim) (ps : List RewardPackage)
      → Unclaimed (x ∷ xs) ps
      → (has_claimed x.user x.package_id (map (claim_of u total) ps) ≡ false) × Unclaimed xs ps
  claim-fresh x xs [] h = (refl, tt)
  claim-fresh x xs (p ∷ ps) h =
      let (rest, others) = claim-fresh x xs ps h.1 in
      (ground (arith, rest, h.0), (ground (arith, h.0), others))

  ClaimedOnce-new :
      (ps : List RewardPackage) → DistinctPackages ps → ClaimedOnce (map (claim_of u total) ps)
  ClaimedOnce-new [] h = tt
  ClaimedOnce-new (p ∷ ps) h = (rw (has_claimed-new u total p.id ps) h.0, ClaimedOnce-new ps h.1)

  ClaimedOnce-append :
      (xs : List UserRewardClaim) (ps : List RewardPackage)
      → ClaimedOnce xs
      → DistinctPackages ps
      → Unclaimed xs ps
      → ClaimedOnce (xs ++ map (claim_of u total) ps)
  ClaimedOnce-append [] ps h d n = ClaimedOnce-new ps d
  ClaimedOnce-append (x ∷ xs) ps h d n =
      let (own, others) = claim-fresh x xs ps n in
      (
        rw (has_claimed-append x.user x.package_id xs (map (claim_of u total) ps))
            (rw (h.0, own) refl),
        ClaimedOnce-append xs ps h.1 d others,
      )

  -- What qualifies is not claimed yet.
  Unclaimed-select :
      (xs : List UserRewardClaim) (ps : List RewardPackage)
      → Unclaimed xs (select (qualifies u total xs) ps)
  Unclaimed-select xs [] = tt
  Unclaimed-select xs (p ∷ ps) = elim (Bool-cases (qualifies u total xs p)) [
    | inl e ↦ rw e (ground (arith, e), Unclaimed-select xs ps)
    | inr e ↦ rw e (Unclaimed-select xs ps)
  ]

  -- Afterwards every package that is active and reached is claimed.
  abbrev pub AllClaimed : List UserRewardClaim → List RewardPackage → Type 0
  AllClaimed cs ps =
      All
        (λ p.
          (p.is_active && leb_ℤ p.deposit_threshold total) ≡ true → has_claimed u p.id cs ≡ true)
        ps

  AllClaimed-select :
      (xs : List UserRewardClaim) (new ps : List RewardPackage)
      → ((k : ℕ)
          → has_package k (select (qualifies u total xs) ps) ≡ true
          → has_package k new ≡ true)
      → AllClaimed (xs ++ map (claim_of u total) new) ps
  AllClaimed-select xs new [] h = tt
  AllClaimed-select xs new (p ∷ ps) h = (
    λ reached.
        rw
          (
            has_claimed-append u p.id xs (map (claim_of u total) new),
            has_claimed-new u total p.id new,
          )
          (elim (Bool-cases (has_claimed u p.id xs)) [
            | inl e ↦ rw e refl
            | inr e ↦ ground (arith, e, h p.id)
          ]),
    AllClaimed-select xs new ps (λ k q. h k (ground (arith, q))),
  )

-- The state that the service leaves, with claims or without.
granted :
    (user : User) (new : List UserRewardClaim) (rate : Percent) (s : Database)
    → (save_claims user new rate s).claims ≡ s.claims ++ new
granted user [] rate s = sym (append-nil s.claims)
granted user (c ∷ cs) rate s = refl

apply_reward_packages-runs :
    (u : ℕ) (user : User) (s : Database)
    → get_row User.id u s.users ≡ some user
    → let total = get_lifetime_deposit_total u s.transactions in
      let ps = qualifying_packages u total s in
      s ▸ apply_reward_packages u
      ≡ save_claims user (map (claim_of u total) ps) (add_bonuses user.commission_rate ps) s
unfolding apply_reward_packages ◌>>=◌
apply_reward_packages-runs u user s found = ground (arith, found)

rate_of :
    (u : ℕ) (user : User) (ps : List RewardPackage) (total : Money) (s : Database)
    → get_row User.id u s.users ≡ some user
    → (user' : User) × (get_row User.id u
          (save_claims user
            (map (claim_of u total) ps)
            (add_bonuses user.commission_rate ps)
            s).users
        ≡ some user')
      × (user'.commission_rate ≡ add_bonuses user.commission_rate ps)
unfolding add_bonuses
rate_of u user [] total s found = (user, found, refl)
rate_of u user (p ∷ ps) total s found =
    let rate = add_bonuses (user.commission_rate +ℤ p.commission_rate_bonus) ps in
    (
      record user { commission_rate = rate },
      get-put_at User.id u user (record user { commission_rate = rate }) s.users found refl,
      refl,
    )

-- If no user has two claims of one package and no two packages have one id, then after the reward packages of a user are applied no user has two claims of one package, every active package whose threshold the user's lifetime deposits reach is claimed, and the user's commission rate has grown by exactly the bonuses of the new claims.
pub apply_reward_packages-grants :
    (u : ℕ) (user : User) (s : Database)
    → get_row User.id u s.users ≡ some user
    → ClaimedOnce s.claims
    → DistinctPackages s.packages
    → let s' = s ▸ apply_reward_packages u in
      ClaimedOnce s'.claims
      × AllClaimed u (get_lifetime_deposit_total u s.transactions) s'.claims s.packages
      × (user' : User) × (get_row User.id u s'.users ≡ some user')
      × (user'.commission_rate +ℤ bonus_total u s.claims
          ≡ user.commission_rate +ℤ bonus_total u s'.claims)
unfolding qualifying_packages
apply_reward_packages-grants u user s found once distinct =
    let total = get_lifetime_deposit_total u s.transactions in
    let ps = select (qualifies u total s.claims) s.packages in
    let (user', found', rate) = rate_of u user ps total s found in
    rw (apply_reward_packages-runs u user s found) (
      rw (granted user (map (claim_of u total) ps) (add_bonuses user.commission_rate ps) s) (
        ClaimedOnce-append u total s.claims ps once
            (DistinctPackages-select u total (qualifies u total s.claims) s.packages distinct)
            (Unclaimed-select u total s.claims s.packages),
        AllClaimed-select u total s.claims ps s.packages (λ k h. h),
        user',
        found',
        rw bonus_total-append (
            omega
              (int_laws, parts rate, parts (add_bonuses-total u total user.commission_rate ps))),
      ))
