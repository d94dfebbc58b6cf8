-- ===== src/Payments/Requests.antt =====
-- `create_deposit` and `create_withdrawal_request`
use quickpaybet.Prelude.{
  ℕ, suc, Bool, not, Option, none, some, List, ◌∷◌, any, length, is_some, ◌==◌,
}
use quickpaybet.Prelude.Int.{ℤ, pos, leb_ℤ}
use quickpaybet.Prelude.Table.{put_row}
use quickpaybet.Models.Money.{Money}
use quickpaybet.Models.Accounts.{User, Currency}
use quickpaybet.Models.Payments.{Text, CryptoPayment, PaymentType, PaymentStatus}
use quickpaybet.Action.{
  Action, Done, atomic, gets, modify, pure, raise, or_raise, raise_if, amount_not_positive,
  address_required, unknown_provider, provider_failed, withdrawal_failed, integrity_error, ◌>>=◌,
  ◌>>◌,
}
use quickpaybet.Wallet.Funds.{deposit_funds, withdraw_funds}
use quickpaybet.Wallet.Rates.{convert_usd_to_wallet_currency}
use quickpaybet.Payments.Providers.{
  Provider, WithdrawalAnswer, ProviderStatus, success, completed, finished, failed, rejected,
  cancelled, other,
}

-- `external_id` is unique.
abbrev pub has_external_id : Text → List CryptoPayment → Bool
has_external_id k ps = any (λ p. p.external_id == k) ps

-- `CryptoPayment.objects.create(…)`, newest first
unfoldable pub create_payment : CryptoPayment → Action CryptoPayment
create_payment p = do
  raise_if (← gets (λ s. has_external_id p.external_id s.payments)) integrity_error
  k ← gets (λ s. suc (length s.payments))
  let row = record p { id = k }
  modify (λ s. record s { payments = row ∷ s.payments })
  pure row

-- A new row's fields; its id is set when it is created.
abbrev pub new_payment :
    User
    → Money
    → Text
    → Money × Currency × ℤ
    → PaymentType
    → Text
    → Text
    → Option Text
    → CryptoPayment
new_payment user amount currency (wallet_amount, wallet_currency, rate) kind provider external_id
      address =
    record {
      id = 0;
      user = user.id;
      amount = amount;
      currency = currency;
      wallet_amount = some wallet_amount;
      wallet_currency = wallet_currency;
      fx_rate_applied = rate;
      payment_type = kind;
      status = PaymentStatus.pending;
      provider = provider;
      external_id = external_id;
      address = address;
    }

-- The provider is looked up by name, which may be unknown.
unfoldable pub create_deposit : Option Provider → User → Money → Text → Action CryptoPayment
unfolding convert_usd_to_wallet_currency create_payment
create_deposit provider user amount currency = do
  raise_if (leb_ℤ amount (pos 0)) amount_not_positive
  p ← or_raise provider unknown_provider
  answer ← or_raise (p.deposit_answer user.id amount currency) provider_failed
  converted ← gets (λ s. convert_usd_to_wallet_currency s.fx_config user amount)
  create_payment (
      new_payment user amount currency converted PaymentType.deposit answer.provider
        answer.external_id answer.address)

unfoldable pub save_payment : CryptoPayment → Action Done
save_payment p = modify (λ s. record s { payments = put_row CryptoPayment.id p s.payments })

-- The block that debits the wallet and creates the payment.
unfoldable pub open_withdrawal :
    User → Money → Option Text → Text → Text → Text → Money × Currency × ℤ → Action CryptoPayment
unfolding withdraw_funds create_payment
open_withdrawal user amount address currency provider external_id converted = atomic do
  withdraw_funds user.id converted.0
  create_payment (
      new_payment user amount currency converted PaymentType.withdrawal provider external_id
        address)

-- The block that gives the money back.
unfoldable pub refund_withdrawal : ℕ → Money → CryptoPayment → Action Done
unfolding deposit_funds save_payment
refund_withdrawal user wallet_amount payment = atomic do
  deposit_funds user wallet_amount
  save_payment (record payment { status = PaymentStatus.failed })

abbrev pub answered_status : ProviderStatus → PaymentStatus → PaymentStatus
answered_status success old = PaymentStatus.completed
answered_status completed old = PaymentStatus.completed
answered_status finished old = PaymentStatus.completed
answered_status failed old = PaymentStatus.failed
answered_status rejected old = PaymentStatus.failed
answered_status cancelled old = old
answered_status other old = old

-- What follows the provider's answer.
unfoldable pub finish_withdrawal :
    ℕ → Money → CryptoPayment → Option WithdrawalAnswer → Action CryptoPayment
unfolding refund_withdrawal save_payment
finish_withdrawal user wallet_amount payment none = do
  refund_withdrawal user wallet_amount payment
  raise withdrawal_failed
finish_withdrawal user wallet_amount payment (some answer) = do
  let done = record payment {
    provider = answer.provider;
    status = answered_status answer.status payment.status;
  }
  save_payment done
  pure done

-- `name` is the setting that the payment records, and `external_id` the new `wd_…` identifier.
unfoldable pub create_withdrawal_request :
    Option Provider → Text → Text → User → Money → Option Text → Text → Action CryptoPayment
unfolding convert_usd_to_wallet_currency open_withdrawal finish_withdrawal
create_withdrawal_request provider name external_id user amount address currency = do
  raise_if (leb_ℤ amount (pos 0)) amount_not_positive
  raise_if (not (is_some address)) address_required
  converted ← gets (λ s. convert_usd_to_wallet_currency s.fx_config user amount)
  payment ← open_withdrawal user amount address currency name external_id converted
  p ← or_raise provider unknown_provider
  finish_withdrawal user.id converted.0 payment
      (p.withdrawal_answer user.id amount address currency external_id)
