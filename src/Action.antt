-- ===== src/Action.antt =====
-- A service call: state and exceptions. What was written before a raise stays written, except inside
-- `atomic`, which is Django's `transaction.atomic()` block.
pub mod Triple
use quickpaybet.Prelude.{Bool, Option, none, some, if◌then◌else◌}
use quickpaybet.Models.Money.{Money}
use quickpaybet.Models.Database.{Database}

-- One constructor for each message that a service raises, and for the exceptions of a missing row.
pub data Error : Type 0 where
  amount_not_positive insufficient_available_balance : Error
  stake_not_positive betting_disabled below_minimum above_maximum : Error
  match_not_found betting_closed no_odds odds_changed insufficient_balance : Error
  too_few_selections too_many_selections invalid_selection same_match_twice odds_too_high : Error
  odds_too_low invalid_side no_draw_market order_not_found cannot_cancel fully_matched : Error
  cannot_cash_out nothing_matched closed_for_cash_out does_not_exist division_by_zero : Error
  address_required unknown_provider provider_failed withdrawal_failed integrity_error : Error
  payment_not_found needs_nowpayments login_failed batch_failed no_batch_id payout_unverified :
      Error
  casino_disabled game_unavailable launch_too_high unknown_member unknown_game : Error
  no_open_session unknown_player casino_launch_failed : Error
  login_required permission_denied role_not_allowed parent_not_allowed invalid_number : Error
  commission_out_of_range limit_negative override_out_of_range : Error
  insufficient_casino_balance : Money → Error

pub data Result {ℓ} (A : Type ℓ) : Type ℓ where
  ok : A → Result A
  err : Error → Result A

abbrev pub Action : Type 0 → Type 0
Action A = Database → Result A × Database

abbrev pub Done : Type 0
Done = Unit

module _ {A : Type 0} where
  unfoldable pub pure : A → Action A
  pure a s = (ok a, s)

  unfoldable pub raise : Error → Action A
  raise e s = (err e, s)

  unfoldable pub gets : (Database → A) → Action A
  gets f s = (ok (f s), s)

  unfoldable pub or_raise : Option A → Error → Action A
  or_raise none e s = (err e, s)
  or_raise (some a) e s = (ok a, s)

  -- On an exception every write of the block is undone.
  unfoldable pub atomic : Action A → Action A
  atomic m s = let (r, s') = m s in elim r [ ok a ↦ (ok a, s') | err e ↦ (err e, s) ]

unfoldable pub raise_if : Bool → Error → Action Done
raise_if c e s = (if c then err e else ok tt, s)

unfoldable pub modify : (Database → Database) → Action Done
modify f s = (ok tt, f s)

infixl 5 ◌>>=◌ ◌>>◌
-- Opening this opens the other operations too.
unfoldable pub ◌>>=◌ : {A B : Type 0} → Action A → (A → Action B) → Action B
unfolding pure raise gets or_raise atomic raise_if modify
◌>>=◌ m f s = let (r, s') = m s in elim r [ ok a ↦ f a s' | err e ↦ (err e, s') ]

abbrev pub ◌>>◌ : {A B : Type 0} → Action A → Action B → Action B
m >> k = m >>= λ _. k

-- The state that a call leaves, and its result.
infixl 20 ◌▸◌
abbrev pub ◌▸◌ : {A : Type 0} → Database → Action A → Database
s ▸ m = (m s).1

abbrev pub returns : {A : Type 0} → Action A → Database → Result A
returns m s = (m s).0
