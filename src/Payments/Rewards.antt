-- ===== src/Payments/Rewards.antt =====
-- `get_lifetime_deposit_total` and `apply_reward_packages`. The packages stand in the order of their
-- model, by threshold.
use quickpaybet.Prelude.{
  ℕ, Bool, true, false, not, ◌&&◌, List, [], ◌∷◌, ◌++◌, any, select, map, ◌==◌, if◌then◌else◌,
}
use quickpaybet.Prelude.Int.{pos, ◌+ℤ◌, leb_ℤ}
use quickpaybet.Prelude.Table.{put_row}
use quickpaybet.Models.Money.{Money, Percent}
use quickpaybet.Models.Accounts.{User}
use quickpaybet.Models.Wallets.{WalletTransaction, TxnType, TxnStatus}
use quickpaybet.Models.Payments.{RewardPackage, UserRewardClaim}
use quickpaybet.Models.Database.{Database}
use quickpaybet.Action.{Action, gets, modify, pure, ◌>>=◌, ◌>>◌}
use quickpaybet.Bets.Commission.{user_row}

abbrev pub is_deposit_row : TxnType → Bool
is_deposit_row TxnType.deposit = true
is_deposit_row _ = false

abbrev pub is_completed : TxnStatus → Bool
is_completed TxnStatus.completed = true
is_completed _ = false

abbrev pub counts_for : ℕ → WalletTransaction → Bool
counts_for u t = t.wallet == u && is_deposit_row t.txn_type && is_completed t.status

unfoldable pub get_lifetime_deposit_total : ℕ → List WalletTransaction → Money
get_lifetime_deposit_total u [] = pos 0
get_lifetime_deposit_total u (t ∷ ts) =
    let rest = get_lifetime_deposit_total u ts in if counts_for u t then t.amount +ℤ rest else rest

-- `UserRewardClaim.objects.filter(user=…)` has the package.
abbrev pub has_claimed : ℕ → ℕ → List UserRewardClaim → Bool
has_claimed u p cs = any (λ c. c.user == u && c.package_id == p) cs

abbrev pub qualifies : ℕ → Money → List UserRewardClaim → RewardPackage → Bool
qualifies u total claims p =
    p.is_active && leb_ℤ p.deposit_threshold total && not (has_claimed u p.id claims)

unfoldable pub qualifying_packages : ℕ → Money → Database → List RewardPackage
qualifying_packages u total s = select (qualifies u total s.claims) s.packages

abbrev pub claim_of : ℕ → Money → RewardPackage → UserRewardClaim
claim_of u total p = record {
  user = u;
  package_id = p.id;
  commission_rate_bonus_applied = p.commission_rate_bonus;
  deposit_total_at_claim = total;
}

-- The loop's additions to the user's `commission_rate`.
unfoldable pub add_bonuses : Percent → List RewardPackage → Percent
add_bonuses rate [] = rate
add_bonuses rate (p ∷ ps) = add_bonuses (rate +ℤ p.commission_rate_bonus) ps

abbrev pub store_claims : User → List UserRewardClaim → Percent → Database → Database
store_claims user new rate s = record s {
  users = put_row User.id (record user { commission_rate = rate }) s.users;
  claims = s.claims ++ new;
}

-- With no new claim nothing is saved.
abbrev pub save_claims : User → List UserRewardClaim → Percent → Database → Database
save_claims user [] rate s = s
save_claims user (c ∷ cs) rate s = store_claims user (c ∷ cs) rate s

unfoldable pub apply_reward_packages : ℕ → Action (List UserRewardClaim)
unfolding user_row qualifying_packages add_bonuses
apply_reward_packages u = do
  user ← user_row u
  total ← gets (λ s. get_lifetime_deposit_total u s.transactions)
  packages ← gets (qualifying_packages u total)
  let new_claims = map (claim_of u total) packages
  modify (save_claims user new_claims (add_bonuses user.commission_rate packages))
  pure new_claims
