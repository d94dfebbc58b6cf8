-- ===== src/Payments/Kept.antt =====
-- An invariant that reads neither users nor claims is kept by `apply_reward_packages`.
use quickpaybet.Prelude.{ℕ, List, [], ◌∷◌}
use quickpaybet.Models.Money.{Percent}
use quickpaybet.Models.Accounts.{User}
use quickpaybet.Models.Payments.{UserRewardClaim}
use quickpaybet.Models.Database.{Database}
use quickpaybet.Action.{modify}
use quickpaybet.Action.Triple.{Keeps, keeps_rules, Keeps-modify}
use quickpaybet.Bets.Commission.{user_row}
use quickpaybet.Payments.Rewards.{apply_reward_packages, save_claims}

module _ {I : Database → Type 0}
    (keep : (s : Database) (users : List User) (claims : List UserRewardClaim)
      → I s
      → I (record s { users = users; claims = claims })) where
  save_claims-Keeps :
      (user : User) (new : List UserRewardClaim) (rate : Percent)
      → Keeps I (modify (save_claims user new rate))
  save_claims-Keeps user [] rate = Keeps-modify _ (λ s i. i)
  save_claims-Keeps user (c ∷ cs) rate = Keeps-modify _ (λ s i. keep s _ _ i)

  pub apply_reward_packages-Keeps : (u : ℕ) → Keeps I (apply_reward_packages u)
  unfolding apply_reward_packages user_row
  apply_reward_packages-Keeps u = search (keeps_rules, save_claims-Keeps) depth 10
