-- ===== src/Tests/Payments.antt =====
-- Payments, rewards and currencies on small inputs.
use quickpaybet.Prelude.{ℕ, ◌≡◌, refl, true, false, none, some, [], ◌∷◌, arith}
use quickpaybet.Prelude.Int.{pos, ◌+ℤ◌}
use quickpaybet.Prelude.Table.{get_row, put_row}
use quickpaybet.Models.Accounts.{User, pkr}
use quickpaybet.Models.Wallets.{Wallet}
use quickpaybet.Models.Payments.{CryptoPayment, PaymentType, PaymentStatus, RewardPackage}
use quickpaybet.Models.Database.{Database}
use quickpaybet.Action.{Error, ok, err, payment_not_found, returns, ◌▸◌, ◌>>=◌}
use quickpaybet.Wallet.Ledger.{wallet_of}
use quickpaybet.Wallet.Rates.{convert_usd_to_wallet_currency, convert_wallet_currency_to_usd}
use quickpaybet.Wallet.RoundTrip.{Close, convert-RoundTrips}
use quickpaybet.Payments.Providers.{Provider, ProviderKind}
use quickpaybet.Payments.Rewards.{get_lifetime_deposit_total, apply_reward_packages}
use quickpaybet.Payments.Requests.{create_withdrawal_request, refund_withdrawal}
use quickpaybet.Payments.Deposits.{credit_deposit, handle_deposit_success, pending_deposit}
use quickpaybet.Payments.Refund.{failed_withdrawal_restores, refund_counts_as_deposit}
use quickpaybet.Payments.Confirmed.{handle_deposit_success-once}
use quickpaybet.Payments.Granted.{
  ClaimedOnce, AllClaimed, bonus_total, apply_reward_packages-grants,
}
use quickpaybet.Payments.Holding.{Holds, amount_of}
use quickpaybet.Payments.Interleaved.{
  Reach, reading, credited, brought, deliveries_credit_each, concurrent_deliveries_credit_twice,
}
use quickpaybet.Tests.Data.{units, bettor, fresh}
use quickpaybet.Tests.Services.{funded}

-- A payout provider that cannot be reached.
abbrev down : Provider
down = record {
  kind = ProviderKind.nowpayments;
  deposit_answer = λ u a c. none;
  withdrawal_answer = λ u a address c k. none;
  authenticate = none;
  payout_with = λ token. none;
  verify_payout = λ batch code token. false;
}

failed_withdrawal_restores_example :
    let m = create_withdrawal_request (some down) 0 9 bettor (pos 10000000) (some 5) 1 in
    ((e : Error) × (returns m funded ≡ err e))
    × ((v : ℕ) → wallet_of v (funded ▸ m) ≡ wallet_of v funded)
failed_withdrawal_restores_example =
    failed_withdrawal_restores funded down 0 9 bettor (pos 10000000) (some 5) 1 refl

abbrev purse : Wallet
purse = record {
  user = 1;
  balance = units 100;
  reserved_balance = pos 0;
  locked_cashback_balance = pos 0;
}

-- A deposit of fifty that waits for its webhook.
abbrev payment : CryptoPayment
payment = record {
  id = 1;
  user = 1;
  amount = units 50;
  currency = 1;
  wallet_amount = some (units 50);
  wallet_currency = pkr;
  fx_rate_applied = pos 10000;
  payment_type = PaymentType.deposit;
  status = PaymentStatus.pending;
  provider = 0;
  external_id = 9;
  address = none;
}

abbrev bronze : RewardPackage
bronze = record {
  id = 1;
  deposit_threshold = units 40;
  commission_rate_bonus = pos 100;
  is_active = true;
}

abbrev waiting : Database
waiting = record funded { payments = payment ∷ []; packages = bronze ∷ [] }

purse_found : wallet_of 1 funded ≡ some purse
unfolding get_row
purse_found = refl

refund_counts_as_deposit_example :
    get_lifetime_deposit_total 1 (funded ▸ refund_withdrawal 1 (units 5) payment).transactions
    ≡ get_lifetime_deposit_total 1 funded.transactions +ℤ units 5
refund_counts_as_deposit_example =
    refund_counts_as_deposit funded 1 (units 5) payment purse purse_found refl

confirmed : returns (handle_deposit_success 9) waiting ≡ ok tt
unfolding handle_deposit_success ◌>>=◌ get_row put_row get_lifetime_deposit_total
confirmed = refl

handle_deposit_success-once_example :
    let s' = waiting ▸ handle_deposit_success 9 in
    (returns (handle_deposit_success 9) s' ≡ err payment_not_found)
    × (s' ▸ handle_deposit_success 9 ≡ s')
handle_deposit_success-once_example = handle_deposit_success-once 9 waiting (refl, tt) confirmed

bettor_found : get_row User.id 1 waiting.users ≡ some bettor
unfolding get_row
bettor_found = refl

-- A package that every user reaches.
abbrev welcomed : Database
welcomed = record waiting { packages = record bronze { deposit_threshold = pos 0 } ∷ [] }

apply_reward_packages-grants_example :
    let s' = welcomed ▸ apply_reward_packages 1 in
    ClaimedOnce s'.claims
    × AllClaimed 1 (get_lifetime_deposit_total 1 welcomed.transactions) s'.claims welcomed.packages
    × (user' : User) × (get_row User.id 1 s'.users ≡ some user')
    × (user'.commission_rate +ℤ bonus_total 1 welcomed.claims
        ≡ bettor.commission_rate +ℤ bonus_total 1 s'.claims)
apply_reward_packages-grants_example =
    apply_reward_packages-grants 1 bettor welcomed bettor_found tt (refl, tt)

waits : pending_deposit 9 waiting ≡ some payment
waits = refl

held : Holds 1 (units 100) waiting
held = (purse, purse_found, refl)

concurrent_deliveries_credit_twice_example :
    let t = waiting ▸ credit_deposit payment ▸ credit_deposit payment in
    Reach 9 (waiting, reading, reading) (t, credited, credited)
    × Holds 1 (units 100 +ℤ amount_of payment +ℤ amount_of payment) t
concurrent_deliveries_credit_twice_example =
    concurrent_deliveries_credit_twice 9 payment waiting (units 100) (refl, tt) waits
      (bettor, bettor_found) held (omega arith)

both_credited :
    Reach 9
      (waiting, reading, reading)
      (waiting ▸ credit_deposit payment ▸ credit_deposit payment, credited, credited)
both_credited = concurrent_deliveries_credit_twice_example.0

deliveries_credit_each_example :
    Holds 1
      (units 100 +ℤ brought (amount_of payment) credited +ℤ brought (amount_of payment) credited)
      (waiting ▸ credit_deposit payment ▸ credit_deposit payment)
deliveries_credit_each_example =
    deliveries_credit_each 9 payment waiting (units 100)
      (waiting ▸ credit_deposit payment ▸ credit_deposit payment, credited, credited) (refl, tt)
      waits held both_credited

convert-RoundTrips_example : Close 2785000 (pos 12345678) (
    convert_wallet_currency_to_usd fresh.fx_config bettor
      (convert_usd_to_wallet_currency fresh.fx_config bettor (pos 12345678)).0)
convert-RoundTrips_example =
    convert-RoundTrips fresh.fx_config bettor 12345678 2785000 refl (omega arith)
