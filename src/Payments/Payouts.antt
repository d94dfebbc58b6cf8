-- ===== src/Payments/Payouts.antt =====
-- `initiate_manual_payout` and `confirm_manual_payout`
use quickpaybet.Prelude.{ℕ, Bool, any, not, ◌&&◌, Option, find, ◌==◌}
use quickpaybet.Models.Payments.{
  Text, CryptoPayment, PaymentStatus, is_withdrawal, is_pending_payment,
}
use quickpaybet.Models.Database.{Database}
use quickpaybet.Action.{
  Action, gets, pure, or_raise, raise_if, payment_not_found, unknown_provider, needs_nowpayments,
  login_failed, batch_failed, no_batch_id, payout_unverified, integrity_error, ◌>>=◌, ◌>>◌,
}
use quickpaybet.Payments.Providers.{Provider, is_nowpayments}
use quickpaybet.Payments.Requests.{save_payment}

abbrev pub pending_withdrawal : ℕ → Database → Option CryptoPayment
pending_withdrawal k s =
    find (λ p. p.id == k && is_withdrawal p.payment_type && is_pending_payment p.status) s.payments

abbrev pub any_withdrawal : ℕ → Database → Option CryptoPayment
any_withdrawal k s = find (λ p. p.id == k && is_withdrawal p.payment_type) s.payments

-- Another payment has this external id, which is unique.
abbrev is_taken : Text → ℕ → Database → Bool
is_taken k id s = any (λ p. p.external_id == k && not (p.id == id)) s.payments

-- The batch's id and the token. The provider's `payout_with` is `create_withdrawal` with a token.
unfoldable pub initiate_manual_payout : Option Provider → ℕ → Action (Text × Text)
unfolding save_payment
initiate_manual_payout provider payment_id = do
  payment ← or_raise (← gets (pending_withdrawal payment_id)) payment_not_found
  p ← or_raise provider unknown_provider
  raise_if (not (is_nowpayments p)) needs_nowpayments
  token ← or_raise p.authenticate login_failed
  answer ← or_raise (p.payout_with token) batch_failed
  batch ← or_raise answer.batch no_batch_id
  taken ← gets (is_taken batch payment.id)
  raise_if taken integrity_error
  save_payment (record payment { provider = answer.provider; external_id = batch })
  pure (batch, token)

unfoldable pub confirm_manual_payout :
    Option Provider → ℕ → Text → Text → Text → Action CryptoPayment
unfolding save_payment
confirm_manual_payout provider payment_id batch code token = do
  payment ← or_raise (← gets (any_withdrawal payment_id)) payment_not_found
  p ← or_raise provider unknown_provider
  raise_if (not (is_nowpayments p)) needs_nowpayments
  raise_if (not (p.verify_payout batch code token)) payout_unverified
  save_payment (record payment { status = PaymentStatus.completed })
  pure (record payment { status = PaymentStatus.completed })
