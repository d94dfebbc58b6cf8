-- ===== src/Models/Database.antt =====
-- The tables, one field each. Rows are never deleted, so a new row's automatic id is one more than
-- the number of rows; `now` is the clock that `created_at` is set from.
use quickpaybet.Prelude.{ℕ, List}
use quickpaybet.Models.Accounts.{User}
use quickpaybet.Models.Sports.{Match, UserMatchOddsOverride, PricingOverride, HouseLiquidityConfig}
use quickpaybet.Models.Wallets.{FxRateConfig, Wallet, WalletTransaction}
use quickpaybet.Models.Cashback.{CashbackConfig, CashbackCredit}
use quickpaybet.Models.Bets.{Bet, ParlayBet, ParlayLeg}
use quickpaybet.Models.Exchange.{ExchangeConfig, ExchangeOrder, ExchangeFill}
use quickpaybet.Models.Payments.{CryptoPayment, RewardPackage, UserRewardClaim}
use quickpaybet.Models.Casino.{
  CasinoConfig, CasinoGame, CasinoSession, CasinoRoundSettlement, CasinoWalletEvent,
  CasinoLiveViewer,
}

pub record Database : Type 0 where
  pub users : List User
  pub matches : List Match
  pub odds_overrides : List UserMatchOddsOverride
  pub pricing_overrides : List PricingOverride
  pub house_config : HouseLiquidityConfig
  pub fx_config : FxRateConfig
  pub wallets : List Wallet
  pub transactions : List WalletTransaction
  pub cashback_config : CashbackConfig
  pub credits : List CashbackCredit
  pub bets : List Bet
  pub parlays : List ParlayBet
  pub legs : List ParlayLeg
  pub exchange_config : ExchangeConfig
  pub orders : List ExchangeOrder
  pub fills : List ExchangeFill
  pub payments : List CryptoPayment
  pub packages : List RewardPackage
  pub claims : List UserRewardClaim
  pub casino_config : CasinoConfig
  pub games : List CasinoGame
  pub sessions : List CasinoSession
  pub round_settlements : List CasinoRoundSettlement
  pub wallet_events : List CasinoWalletEvent
  pub viewers : List CasinoLiveViewer
  pub now : ℕ
