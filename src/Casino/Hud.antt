-- ===== src/Casino/Hud.antt =====
-- What the page of a game polls: `get_wallet_and_exposure_status`, `record_live_viewer_heartbeat` and
-- `get_effective_live_blur_region`. The clock counts milliseconds here.
use quickpaybet.Prelude.{
  ℕ, Bool, true, false, not, ◌&&◌, ◌-◌, Option, none, some, List, [], ◌∷◌, ◌++◌, any, find, update,
  is_some, ◌==◌, ltb, leb, if◌then◌else◌,
}
use quickpaybet.Prelude.Int.{pos, neg}
use quickpaybet.Models.Money.{Money}
use quickpaybet.Models.Accounts.{User}
use quickpaybet.Models.Payments.{Text}
use quickpaybet.Models.Casino.{CasinoGame, CasinoWalletEvent, CasinoLiveViewer, is_debit}
use quickpaybet.Models.Database.{Database}
use quickpaybet.Action.{Action, Done, gets, modify, pure, ◌>>=◌}
use quickpaybet.Wallet.Ledger.{get_or_create_wallet}
use quickpaybet.Wallet.Rates.{convert_wallet_currency_to_usd}

abbrev same_game : Option ℕ → ℕ → Bool
same_game none g = false
same_game (some h) g = h == g

-- `.filter(user=…, game=…).order_by('-id').first()`; the rows stand newest first.
abbrev pub latest_event : ℕ → ℕ → Database → Option CasinoWalletEvent
latest_event u g s = find (λ e. e.user == u && same_game e.game g) s.wallet_events

abbrev pub has_credit : ℕ → Text → Database → Bool
has_credit u round s =
    any (λ e. e.user == u && (e.round_id == round) && not (is_debit e.action)) s.wallet_events

abbrev pub exposure_of : ℕ → Option CasinoWalletEvent → Database → Money
exposure_of u none s = pos 0
exposure_of u (some e) s =
    if is_debit e.action && not e.cash_skipped && not (has_credit u e.round_id s)
    then neg e.wallet_amount
    else pos 0

pub record GameStatus : Type 0 where
  pub balance_wallet : Money
  pub balance_usd : Money
  pub exposure_wallet : Money
  pub exposure_usd : Money

unfoldable pub get_wallet_and_exposure_status : User → CasinoGame → Action GameStatus
unfolding get_or_create_wallet convert_wallet_currency_to_usd
get_wallet_and_exposure_status user game = do
  wallet ← get_or_create_wallet user.id
  fx ← gets (λ s. s.fx_config)
  exposure ← gets (λ s. exposure_of user.id (latest_event user.id game.id s) s)
  pure (record {
    balance_wallet = wallet.balance;
    balance_usd = convert_wallet_currency_to_usd fx user wallet.balance;
    exposure_wallet = exposure;
    exposure_usd = neg (convert_wallet_currency_to_usd fx user (neg exposure));
  })

abbrev detection_stale_after : ℕ
detection_stale_after = 5000

abbrev write_throttle : ℕ
write_throttle = 2000

abbrev pub viewer_of : ℕ → ℕ → Database → Option CasinoLiveViewer
viewer_of u g s = find (λ v. v.user == u && v.game == g) s.viewers

abbrev is_recent : ℕ → Option CasinoLiveViewer → Bool
is_recent now none = false
is_recent now (some v) = ltb (now - v.last_heartbeat) write_throttle

-- `update_or_create(user=…, game=…, defaults={})`, whose save sets `last_heartbeat`
abbrev stamp : ℕ → ℕ → ℕ → List CasinoLiveViewer → Bool → List CasinoLiveViewer
stamp u g now vs true =
    update (λ v. v.user == u && v.game == g) (λ v. record v { last_heartbeat = now }) vs
stamp u g now vs false = vs ++ record { user = u; game = g; last_heartbeat = now } ∷ []

unfoldable pub record_live_viewer_heartbeat : User → CasinoGame → Action Done
record_live_viewer_heartbeat user game = do
  viewer ← gets (viewer_of user.id game.id)
  now ← gets (λ s. s.now)
  (if is_recent now viewer
      then pure tt
      else modify
          (λ s. record s { viewers = stamp user.id game.id now s.viewers (is_some viewer) }))

-- A detection that is on, there, and at most `detection_stale_after` old.
abbrev pub detected : Bool → Option Text → Option ℕ → ℕ → Option Text
detected true (some region) (some at) now =
    if leb (now - at) detection_stale_after then some region else none
detected true (some region) none now = none
detected true none at now = none
detected false region at now = none

abbrev or_fixed : Option Text → Option Text → Option Text
or_fixed none fixed = fixed
or_fixed (some region) fixed = some region

unfoldable pub get_effective_live_blur_region : CasinoGame → ℕ → Option Text
get_effective_live_blur_region game now =
    or_fixed
      (detected game.ai_tracking_enabled game.detected_blur_region
        game.detected_blur_region_updated_at now)
      game.live_blur_region
