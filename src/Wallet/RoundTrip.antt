-- ===== src/Wallet/RoundTrip.antt =====
-- Converting an amount into a wallet's currency and back.
use quickpaybet.Prelude.{ℕ, ◌≡◌, ◌*◌, ◌+◌, ◌≤◌, ◌<◌, arith}
use quickpaybet.Prelude.Int.{pos, ◌+ℤ◌, ◌*ℤ◌, ◌≤ℤ◌, int_laws, *ℤ_pos}
use quickpaybet.Prelude.Decimal.{by_sign, half_even, half_even_bounds}
use quickpaybet.Models.Money.{Money}
use quickpaybet.Models.Accounts.{User, Currency, usd, pkr}
use quickpaybet.Models.Wallets.{FxRateConfig}
use quickpaybet.Wallet.Rates.{
  convert_usd_to_wallet_currency, convert_wallet_currency_to_usd, to_wallet, to_usd,
}

-- The amount in rupees and back, on magnitudes: both roundings.
there_and_back :
    (x r : ℕ)
    → 0 < r
    → let w = half_even (x * r) (10000 * 1000000) * 1000000 in
      let y = half_even (w * 10000) r in
      (2 * (y * r) ≤ 2 * (x * r) + 10000000000 + r) × (2 * (x * r) ≤ 2 * (y * r) + 10000000000 + r)
there_and_back x r h =
    let w = half_even (x * r) (10000 * 1000000) * 1000000 in
    let a = half_even_bounds (x * r) (10000 * 1000000) (omega arith) in
    let b = half_even_bounds (w * 10000) r h in
    (omega (arith, a.0, a.1, b.0, b.1), omega (arith, a.0, a.1, b.0, b.1))

-- `y` is `x`, up to half of a hundredth of a rupee and half of the wallet's unit, at `r` rupees.
abbrev pub Close : ℕ → Money → Money → Type 0
Close r x y =
    (y *ℤ pos r +ℤ y *ℤ pos r ≤ℤ x *ℤ pos r +ℤ x *ℤ pos r +ℤ pos 10000000000 +ℤ pos r)
    × (x *ℤ pos r +ℤ x *ℤ pos r ≤ℤ y *ℤ pos r +ℤ y *ℤ pos r +ℤ pos 10000000000 +ℤ pos r)

by_currency :
    (c : Currency) (config : FxRateConfig) (x r : ℕ)
    → config.usd_pkr_rate ≡ pos r
    → 0 < r
    → Close r (pos x) (to_usd c (to_wallet c (pos x) config.usd_pkr_rate).0 config.usd_pkr_rate)
unfolding by_sign
by_currency usd config x r e h = (omega int_laws, omega int_laws)
by_currency pkr config x r e h =
    let b = there_and_back x r h in
    let w = half_even (x * r) (10000 * 1000000) * 1000000 in
    rw
      (
        e,
        *ℤ_pos x r,
        *ℤ_pos (half_even (x * r) (10000 * 1000000)) 1000000,
        *ℤ_pos w 10000,
        *ℤ_pos (half_even (w * 10000) r) r,
      )
      (omega (int_laws, b.0), omega (int_laws, b.1))

-- At a rate above zero, an amount of dollars that is not negative, converted into the currency of the user's wallet and back, comes back to within half of a hundredth of a rupee and half of the wallet's unit, in rupees.
pub convert-RoundTrips :
    (config : FxRateConfig) (user : User) (x r : ℕ)
    → config.usd_pkr_rate ≡ pos r
    → 0 < r
    → Close r (pos x) (
        convert_wallet_currency_to_usd config user
          (convert_usd_to_wallet_currency config user (pos x)).0)
unfolding convert_usd_to_wallet_currency convert_wallet_currency_to_usd
convert-RoundTrips config user x r e h = by_currency user.currency config x r e h
