-- ===== src/Bets/Commission.antt =====
-- `_credit_affiliate_commission` and `_credit_affiliate_commission_on_parlay`
use quickpaybet.Prelude.{ℕ, ◌||◌, Option, none, some, if◌then◌else◌}
use quickpaybet.Prelude.Int.{pos, ◌*ℤ◌, leb_ℤ}
use quickpaybet.Prelude.Table.{get_row}
use quickpaybet.Models.Money.{Money, Column}
use quickpaybet.Models.Accounts.{User}
use quickpaybet.Models.Wallets.{Wallet, TxnType}
use quickpaybet.Models.Bets.{Bet, ParlayBet}
use quickpaybet.Action.{Action, Done, gets, pure, or_raise, does_not_exist, ◌>>=◌}
use quickpaybet.Wallet.Ledger.{post, wallet_of}

-- A foreign key's row.
unfoldable pub user_row : ℕ → Action User
user_row u = do or_raise (← gets (λ s. get_row User.id u s.users)) does_not_exist

abbrev pub pay_into : ⦃c : Column⦄ → Option Wallet → Money → User → Action Done
pay_into none stake parent = pure tt
pay_into (some w) stake parent = post TxnType.commission (stake *ℤ parent.commission_rate) 10000 w

-- Nothing is paid for a rate or a commission that is not positive, or without a wallet.
unfoldable pub pay_parent : ⦃c : Column⦄ → Money → User → Action Done
unfolding post
pay_parent stake parent s =
    if leb_ℤ parent.commission_rate (pos 0) || leb_ℤ (stake *ℤ parent.commission_rate) (pos 0)
    then pure tt s
    else pay_into (wallet_of parent.id s) stake parent s

-- `user.parent`, the direct parent only
unfoldable pub pay_parent_of : ⦃c : Column⦄ → User → Money → Action Done
unfolding user_row pay_parent
pay_parent_of user stake = elim user.parent [
  | none ↦ pure tt
  | some p ↦ do parent ← user_row p; pay_parent stake parent
]

unfoldable pub credit_affiliate_commission : ⦃c : Column⦄ → User → Bet → Action Done
unfolding pay_parent_of
credit_affiliate_commission user bet = pay_parent_of user bet.stake

unfoldable pub credit_affiliate_commission_on_parlay : ⦃c : Column⦄ → User → ParlayBet → Action Done
unfolding pay_parent_of
credit_affiliate_commission_on_parlay user parlay = pay_parent_of user parlay.stake
