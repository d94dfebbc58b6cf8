-- ===== src/Cashback/Settings.antt =====
-- `get_effective_settings`
use quickpaybet.Prelude.{Bool, get_or}
use quickpaybet.Models.Money.{Percent}
use quickpaybet.Models.Accounts.{User}
use quickpaybet.Models.Cashback.{CashbackConfig}

-- The tuple (enabled, rate, multiplier, deduct_original_on_unlock).
pub record Settings : Type 0 where
  pub enabled : Bool
  pub rate : Percent
  pub multiplier : Percent
  pub deduct_original_on_unlock : Bool

unfoldable pub get_effective_settings : CashbackConfig → User → Settings
get_effective_settings config user = record {
  enabled = get_or user.cashback_enabled_override config.is_enabled;
  rate = get_or user.cashback_rate_override config.default_rate;
  multiplier = get_or user.cashback_wagering_multiplier_override config.default_wagering_multiplier;
  deduct_original_on_unlock = config.deduct_original_on_unlock;
}
