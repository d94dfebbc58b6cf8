-- ===== src/Soundness/Payments.antt =====
-- The invariant for payments, and for the rewards that a confirmed deposit brings.
use quickpaybet.Prelude.{ℕ, Option, none, some}
use quickpaybet.Models.Money.{Money}
use quickpaybet.Models.Accounts.{User}
use quickpaybet.Models.Payments.{Text, CryptoPayment}
use quickpaybet.Action.Triple.{
  Keeps, keeps_rules, Keeps-modify, Keeps-bind, Keeps-gets, Keeps-raise_if, Keeps-pure,
}
use quickpaybet.Payments.Providers.{Provider, WithdrawalAnswer}
use quickpaybet.Payments.Requests.{
  create_payment, create_deposit, save_payment, open_withdrawal, refund_withdrawal,
  finish_withdrawal, create_withdrawal_request,
}
use quickpaybet.Payments.Rewards.{apply_reward_packages}
use quickpaybet.Payments.Kept.{apply_reward_packages-Keeps}
use quickpaybet.Payments.Deposits.{find_deposit, credit_deposit, handle_deposit_success}
use quickpaybet.Soundness.Invariant.{Sound}
use quickpaybet.Soundness.Services.{deposit_funds-Sound, withdraw_funds-Sound}

create_payment-Sound : (p : CryptoPayment) → Keeps Sound (create_payment p)
unfolding create_payment
create_payment-Sound p = Keeps-bind _ _ (Keeps-gets _) λ taken.
    Keeps-bind _ _ (Keeps-raise_if _ _) λ _.
      Keeps-bind _ _ (Keeps-gets _)
        λ k. Keeps-bind _ _ (Keeps-modify _ (λ s h. h)) λ _. Keeps-pure _

save_payment-Sound : (p : CryptoPayment) → Keeps Sound (save_payment p)
unfolding save_payment
save_payment-Sound p = Keeps-modify _ (λ s h. h)

apply_reward_packages-Sound : (u : ℕ) → Keeps Sound (apply_reward_packages u)
apply_reward_packages-Sound = apply_reward_packages-Keeps (λ s us cs h. h)

ruleset payment_rules = (
  keeps_rules, create_payment-Sound, save_payment-Sound, apply_reward_packages-Sound,
  deposit_funds-Sound, withdraw_funds-Sound,
)

pub create_deposit-Sound :
    (provider : Option Provider) (user : User) (amount : Money) (currency : Text)
    → Keeps Sound (create_deposit provider user amount currency)
unfolding create_deposit
create_deposit-Sound provider user amount currency = search payment_rules depth 12

finish_withdrawal-Sound :
    (u : ℕ) (a : Money) (p : CryptoPayment) (answer : Option WithdrawalAnswer)
    → Keeps Sound (finish_withdrawal u a p answer)
unfolding finish_withdrawal refund_withdrawal
finish_withdrawal-Sound u a p none = search payment_rules depth 10
finish_withdrawal-Sound u a p (some answer) = search payment_rules depth 10

pub create_withdrawal_request-Sound :
    (provider : Option Provider) (name external_id : Text) (user : User) (amount : Money)
    (address : Option Text) (currency : Text)
    → Keeps Sound (create_withdrawal_request provider name external_id user amount address currency)
unfolding create_withdrawal_request open_withdrawal
create_withdrawal_request-Sound provider name external_id user amount address currency =
    search (payment_rules, finish_withdrawal-Sound) depth 16

pub handle_deposit_success-Sound : (k : Text) → Keeps Sound (handle_deposit_success k)
unfolding handle_deposit_success find_deposit credit_deposit
handle_deposit_success-Sound k = search payment_rules depth 12
