-- ===== src/Wallet/Rates.antt =====
-- The currency conversions of backend/apps/wallet/services.py. A rate counts 0.0001.
use quickpaybet.Prelude.{◌*◌}
use quickpaybet.Prelude.Int.{ℤ, pos, pos_part, ◌*ℤ◌}
use quickpaybet.Prelude.Decimal.{quantize}
use quickpaybet.Models.Money.{Money}
use quickpaybet.Models.Accounts.{User, Currency, usd, pkr}
use quickpaybet.Models.Wallets.{FxRateConfig}

-- The amount in the wallet's currency, that currency, and the rate that was applied.
abbrev pub to_wallet : Currency → Money → ℤ → Money × Currency × ℤ
to_wallet pkr amount rate = (quantize (amount *ℤ rate) (10000 * 1000000) *ℤ pos 1000000, pkr, rate)
to_wallet usd amount rate = (amount, usd, pos 10000)

unfoldable pub convert_usd_to_wallet_currency : FxRateConfig → User → Money → Money × Currency × ℤ
convert_usd_to_wallet_currency config user amount =
    to_wallet user.currency amount config.usd_pkr_rate

abbrev pub to_usd : Currency → Money → ℤ → Money
to_usd pkr amount rate = quantize (amount *ℤ pos 10000) (pos_part rate)
to_usd usd amount rate = amount

-- The rate is at least 1.0000 by the field's validator, so it is divided by as a natural number.
unfoldable pub convert_wallet_currency_to_usd : FxRateConfig → User → Money → Money
convert_wallet_currency_to_usd config user amount = to_usd user.currency amount config.usd_pkr_rate
