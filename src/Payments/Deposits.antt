-- ===== src/Payments/Deposits.antt =====
-- `handle_deposit_success`, in its two parts, and the webhook that calls it
-- (backend/apps/payments/views.py)
use quickpaybet.Prelude.{
  Bool, true, false, ◌&&◌, Option, none, some, if◌then◌else◌, find, update, get_or, ◌==◌,
}
use quickpaybet.Models.Payments.{Text, CryptoPayment, PaymentStatus, is_deposit, is_pending_payment}
use quickpaybet.Models.Database.{Database}
use quickpaybet.Action.{
  Action, Done, Result, ok, err, atomic, gets, pure, modify, or_raise, payment_not_found, ◌>>=◌,
  ◌>>◌,
}
use quickpaybet.Wallet.Funds.{deposit_funds}
use quickpaybet.Payments.Providers.{
  ProviderStatus, is_success_payment_status, success, completed, finished, failed, rejected,
  cancelled, other,
}
use quickpaybet.Payments.Requests.{save_payment}
use quickpaybet.Payments.Rewards.{apply_reward_packages}

abbrev pub pending_deposit : Text → Database → Option CryptoPayment
pending_deposit k s =
    find (λ p. p.external_id == k && is_deposit p.payment_type && is_pending_payment p.status)
      s.payments

-- The read, which locks nothing.
unfoldable pub find_deposit : Text → Action CryptoPayment
find_deposit k = do or_raise (← gets (pending_deposit k)) payment_not_found

-- The block, which does not read the payment again.
unfoldable pub credit_deposit : CryptoPayment → Action Done
unfolding deposit_funds apply_reward_packages save_payment
credit_deposit payment = atomic do
  deposit_funds payment.user (get_or payment.wallet_amount payment.amount)
  apply_reward_packages payment.user
  save_payment (record payment { status = PaymentStatus.completed })

unfoldable pub handle_deposit_success : Text → Action Done
unfolding find_deposit credit_deposit
handle_deposit_success k = do payment ← find_deposit k; credit_deposit payment

-- `….filter(external_id=…, status=PENDING).update(status=FAILED)`
unfoldable pub fail_payment : Text → Action Done
fail_payment k = modify λ s. record s {
  payments =
      update (λ p. p.external_id == k && is_pending_payment p.status)
        (λ p. record p { status = PaymentStatus.failed }) s.payments;
}

-- The responses that the webhook gives.
pub data Response : Type 0 where
  done invalid_signature invalid_json external_id_required refused : Response

-- Any exception of the service is answered with an error.
unfoldable pub answer_of : Result Done × Database → Result Response × Database
answer_of (ok a, s) = (ok done, s)
answer_of (err e, s) = (ok refused, s)

-- `provider_status in ('FAILED', 'CANCELLED')`
abbrev is_failure : ProviderStatus → Bool
is_failure failed = true
is_failure cancelled = true
is_failure success = false
is_failure completed = false
is_failure finished = false
is_failure rejected = false
is_failure other = false

abbrev pub by_status : Text → ProviderStatus → Action Response
by_status k status s =
    if is_success_payment_status status
    then answer_of (handle_deposit_success k s)
    else if is_failure status
    then (fail_payment k >> pure done) s
    else (ok done, s)

-- The provider's answer on the signature, and the body's two fields if it is JSON.
unfoldable pub post_webhook : Bool → Option (Option Text × ProviderStatus) → Action Response
unfolding handle_deposit_success fail_payment answer_of ◌>>=◌
post_webhook false body s = (ok invalid_signature, s)
post_webhook true none s = (ok invalid_json, s)
post_webhook true (some (none, status)) s = (ok external_id_required, s)
post_webhook true (some (some k, status)) s = by_status k status s
