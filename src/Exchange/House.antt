-- ===== src/Exchange/House.antt =====
-- The house's own orders: `get_house_user`, `_house_committed_liability` and
-- `sync_house_orders_for_match`. Whether the cache's lock was free is an argument.
use quickpaybet.Prelude.{
  ℕ, Bool, true, false, not, ◌&&◌, ◌*◌, Option, none, some, List, [], ◌∷◌, select, find, get_or,
  ◌==◌, if◌then◌else◌,
}
use quickpaybet.Prelude.Int.{ℤ, pos, pos_part, ◌+ℤ◌, ◌-ℤ◌, ◌*ℤ◌, leb_ℤ}
use quickpaybet.Prelude.Decimal.{by_sign, quantize_down}
use quickpaybet.Models.Money.{Money, Odds, Column}
use quickpaybet.Models.Accounts.{User}
use quickpaybet.Models.Sports.{
  Match, Selection, home, draw, away, same_selection, ResolvedPricingMode, is_open_for_betting,
}
use quickpaybet.Models.Exchange.{
  Side, back, lay, ExchangeOrder, OrderStatus, opened, cancelled, settled, void, is_open,
  unmatched_stake,
}
use quickpaybet.Models.Database.{Database}
use quickpaybet.Action.{
  Action, Done, Error, Result, ok, err, does_not_exist, division_by_zero, atomic, gets, pure,
  raise_if, ◌>>=◌, ◌>>◌,
}
use quickpaybet.Pricing.Adjust.{is_zero, resolve_effective_lay_spread}
use quickpaybet.Pricing.Modes.{compute_back_and_lay, resolve_match_pricing_mode}
use quickpaybet.Exchange.Matching.{exposure, exposure_rate}
use quickpaybet.Exchange.Orders.{place_order, cancel_order}
use quickpaybet.Exchange.Book.{selections_of}

abbrev pub get_house_user : Database → Option User
get_house_user s = find (λ u. u.is_house_account) s.users

abbrev is_void : OrderStatus → Bool
is_void opened = false
is_void cancelled = false
is_void settled = false
is_void void = true

abbrev pub is_house_order : ℕ → Match → Selection → ExchangeOrder → Bool
is_house_order house m selection o =
    o.user == house && (o.match_id == m.id) && same_selection o.selection selection

-- Stake times rate, summed: a hundredth of the wallet's unit.
unfoldable pub committed : List ExchangeOrder → ℤ
unfolding exposure
committed [] = pos 0
committed (o ∷ os) = exposure o.side o.odds o.matched_stake +ℤ committed os

unfoldable pub house_committed_liability : ℕ → Match → Selection → Database → ℤ
unfolding committed
house_committed_liability house m selection s =
    committed (select (λ o. is_house_order house m selection o && not (is_void o.status)) s.orders)

-- The open orders of the house on a selection, as they stand.
abbrev pub stale_orders : ℕ → Match → Selection → Database → List ExchangeOrder
stale_orders house m selection s =
    select (λ o. is_house_order house m selection o && is_open o.status) s.orders

unfoldable pub cancel_stale : ⦃c : Column⦄ → User → List ExchangeOrder → Action Done
unfolding cancel_order unmatched_stake
cancel_stale house [] = pure tt
cancel_stale house (o ∷ os) =
    (if leb_ℤ (unmatched_stake o) (pos 0) then pure tt else cancel_order house o.id)
    >> cancel_stale house os

-- `(headroom / 2 / rate).quantize(…, rounding=ROUND_DOWN)`
unfoldable pub stake_to_offer : ℤ → Side → Odds → Money
unfolding by_sign exposure_rate
stake_to_offer headroom side odds = quantize_down headroom (2 * pos_part (exposure_rate side odds))

abbrev pub headroom : Money → ℤ → ℤ
headroom cap liability = cap *ℤ pos 100 -ℤ liability

-- `except ValidationError`: a missing row is not one.
abbrev logged : Error → Database → Result Done × Database
logged does_not_exist s = (err does_not_exist, s)
logged _ s = (ok tt, s)

unfoldable pub skip_refused : {A : Type 0} → Action A → Action Done
skip_refused m s = let (r, s') = m s in elim r [ ok a ↦ (ok tt, s') | err e ↦ logged e s' ]

-- One side's fresh order, if there is stake for it.
unfoldable pub offer : ⦃c : Column⦄ → User → Match → Selection → Side → Odds → ℤ → Action Done
unfolding stake_to_offer place_order skip_refused
offer house m selection side odds room = do
  raise_if (is_zero (exposure_rate side odds)) division_by_zero
  let stake = stake_to_offer room side odds
  (if leb_ℤ stake (pos 0)
      then pure tt
      else skip_refused (place_order house m.id (some selection) (some side) odds stake))

-- One selection that has a price.
unfoldable pub reseed :
    ⦃c : Column⦄
    → User
    → Match
    → Money
    → ResolvedPricingMode
    → Odds
    → Selection
    → Odds
    → Action Done
unfolding cancel_stale house_committed_liability offer compute_back_and_lay
reseed house m cap mode spread selection raw = do
  let prices = compute_back_and_lay raw mode spread selection
  atomic do stale ← gets (stale_orders house.id m selection); cancel_stale house stale
  liability ← gets (house_committed_liability house.id m selection)
  let room = headroom cap liability
  (if leb_ℤ room (pos 0)
      then pure tt
      else offer house m selection back prices.0 room >> offer house m selection lay prices.1 room)

abbrev pub raw_price : Match → Selection → Option Odds
raw_price m home = m.odds_home
raw_price m draw = m.odds_draw
raw_price m away = m.odds_away

unfoldable pub reseed_all :
    ⦃c : Column⦄ → User → Match → Money → ResolvedPricingMode → Odds → List Selection → Action Done
unfolding reseed
reseed_all house m cap mode spread [] = pure tt
reseed_all house m cap mode spread (x ∷ xs) =
    elim (raw_price m x) [ none ↦ pure tt | some raw ↦ reseed house m cap mode spread x raw ]
    >> reseed_all house m cap mode spread xs

unfoldable pub sync_for : ⦃c : Column⦄ → Match → Option User → Bool → Action Done
unfolding reseed_all resolve_effective_lay_spread resolve_match_pricing_mode
sync_for m none lock = pure tt
sync_for m (some house) false = pure tt
sync_for m (some house) true = do
  config ← gets (λ s. s.house_config)
  mode ← gets (λ s. resolve_match_pricing_mode s m)
  reseed_all house m
      (get_or m.house_max_liability_override config.default_max_liability_per_selection) mode
      (resolve_effective_lay_spread m.lay_spread_override config.default_lay_spread)
      (selections_of m)

unfoldable pub sync_house_orders_for_match : ⦃c : Column⦄ → Match → Bool → Action Done
unfolding sync_for
sync_house_orders_for_match m lock = do
  config ← gets (λ s. s.house_config)
  house ← gets get_house_user
  (if config.is_enabled && is_open_for_betting m.status then sync_for m house lock else pure tt)
