-- ===== src/Payments/Providers.antt =====
-- What the services ask of a payment provider (backend/apps/payments/providers.py): one value stands
-- for the provider's answers to one request. `none` is an exception, of the network, of the provider, or
-- of a provider class that has no such method.
use quickpaybet.Prelude.{ℕ, Bool, true, false, Option, none, some}
use quickpaybet.Models.Money.{Money}
use quickpaybet.Models.Payments.{Text}

pub record DepositAnswer : Type 0 where
  pub external_id : Text
  pub address : Option Text
  pub provider : Text

-- The words that the services look for, in any case.
pub data ProviderStatus : Type 0 where
  success completed finished failed rejected cancelled other : ProviderStatus

-- `batch` is `batch_withdrawal_id or external_id`, if there is one.
pub record WithdrawalAnswer : Type 0 where
  pub batch : Option Text
  pub provider : Text
  pub status : ProviderStatus

pub data ProviderKind : Type 0 where
  mock nowpayments : ProviderKind

-- `amount`, the address and the external id are what the services hand over.
pub record Provider : Type 0 where
  pub kind : ProviderKind
  pub deposit_answer : ℕ → Money → Text → Option DepositAnswer
  pub withdrawal_answer : ℕ → Money → Option Text → Text → Text → Option WithdrawalAnswer
  pub authenticate : Option Text
  pub payout_with : Text → Option WithdrawalAnswer
  pub verify_payout : Text → Text → Text → Bool

abbrev pub is_nowpayments : Provider → Bool
is_nowpayments p = elim p.kind [ mock ↦ false | nowpayments ↦ true ]

-- `MockPaymentProvider`: a deposit's id is made from `uuid`, and its address from its id. It has no
-- payouts of its own.
unfoldable pub mock_provider : Text → Text → (Text → Text) → Provider
mock_provider name uuid address_of = record {
  kind = mock;
  deposit_answer = λ user amount currency.
      some (record { external_id = uuid; address = some (address_of uuid); provider = name });
  withdrawal_answer = λ user amount address currency external_id.
      some (record { batch = some external_id; provider = name; status = success });
  authenticate = none;
  payout_with = λ token. none;
  verify_payout = λ batch code token. false;
}

-- `is_success_payment_status`
abbrev pub is_success_payment_status : ProviderStatus → Bool
is_success_payment_status success = true
is_success_payment_status completed = true
is_success_payment_status finished = true
is_success_payment_status failed = false
is_success_payment_status rejected = false
is_success_payment_status cancelled = false
is_success_payment_status other = false
