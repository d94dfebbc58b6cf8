-- ===== src/Accounts/Requests.antt =====
-- The requests that write users: `admin_user_update_view` of backend/apps/web/views.py, the update of
-- backend/apps/accounts/serializers.py, and registration. Forms come parsed, field by field; only the
-- fields that the model has are read, and a registration is one that passed its form's checks.
use quickpaybet.Prelude.{
  ℕ, suc, Bool, true, false, not, ◌&&◌, ◌||◌, Option, none, some, List, [], ◌∷◌, ◌++◌, any, length,
  get_or, ◌==◌, if◌then◌else◌,
}
use quickpaybet.Prelude.Int.{ℤ, pos, ltb_ℤ}
use quickpaybet.Prelude.Table.{get_row, put_row}
use quickpaybet.Models.Money.{Money, Percent}
use quickpaybet.Models.Accounts.{User, Role, Currency}
use quickpaybet.Models.Database.{Database}
use quickpaybet.Action.{
  Action, Done, gets, modify, pure, raise, or_raise, raise_if, does_not_exist, integrity_error,
  login_required, permission_denied, role_not_allowed, parent_not_allowed, invalid_number,
  commission_out_of_range, limit_negative, override_out_of_range, ◌>>=◌, ◌>>◌, ◌▸◌,
}
use quickpaybet.Accounts.Permissions.{
  is_full_admin, is_parent, user_can_manage_target, roles_assignable_by, has_dashboard_access,
}

-- A stripped text field: empty, no number, or a number.
pub data Field (A : Type 0) : Type 0 where
  blank invalid : Field A
  value : A → Field A

unfoldable pub optional : {A : Type 0} → Field A → Action (Option A)
optional blank = pure none
optional invalid = raise invalid_number
optional (value a) = pure (some a)

pub record UserForm : Type 0 where
  pub role : Option Role
  pub parent_id : Field ℕ
  pub min_bet_amount : Field Money
  pub max_bet_amount : Field Money
  pub commission_rate : Field Percent
  pub is_betting_enabled : Bool
  pub cashback_enabled_override : Option Bool
  pub cashback_rate_override : Field Percent
  pub cashback_wagering_multiplier_override : Field Percent

unfoldable pub find_user : ℕ → Database → Option User
find_user k s = get_row User.id k s.users

abbrev pub dangling : Option ℕ → Database → Bool
dangling none s = false
dangling (some k) s = not (any (λ u. u.id == k) s.users)

-- `user.save()`, under the foreign key of `parent`
unfoldable pub save_user : User → Action Done
save_user u = do
  raise_if (← gets (dangling u.parent)) integrity_error
  modify (λ s. record s { users = put_row User.id u s.users })

-- The parent that a form asks for; a master leaves it alone.
unfoldable pub new_parent : User → User → Field ℕ → Action (Option ℕ)
unfolding optional
new_parent actor target parent_id =
    if is_full_admin actor then optional parent_id else pure target.parent

abbrev pub is_negative : Option Money → Bool
is_negative none = false
is_negative (some v) = ltb_ℤ v (pos 0)

abbrev pub is_outside : ℤ → Option Percent → Bool
is_outside most none = false
is_outside most (some v) = ltb_ℤ v (pos 0) || ltb_ℤ most v

abbrev pub assignable : User → Option Role → Option Role
assignable actor none = none
assignable actor (some r) = if roles_assignable_by actor r then some r else none

-- The numbers of the form, in the order in which they are read and tested.
unfoldable pub with_numbers : User → UserForm → Action User
unfolding optional
with_numbers u form = do
  min_bet ← optional form.min_bet_amount
  max_bet ← optional form.max_bet_amount
  commission_raw ← optional form.commission_rate
  let commission = get_or commission_raw (pos 0)
  raise_if (is_outside (pos 10000) (some commission)) commission_out_of_range
  raise_if (is_negative min_bet) limit_negative
  raise_if (is_negative max_bet) limit_negative
  rate ← optional form.cashback_rate_override
  raise_if (is_outside (pos 9900) rate) override_out_of_range
  multiplier ← optional form.cashback_wagering_multiplier_override
  raise_if (is_outside (pos 2000) multiplier) override_out_of_range
  pure (record u {
    min_bet_amount = min_bet;
    max_bet_amount = max_bet;
    commission_rate = commission;
    is_betting_enabled = form.is_betting_enabled;
    cashback_enabled_override = form.cashback_enabled_override;
    cashback_rate_override = rate;
    cashback_wagering_multiplier_override = multiplier;
  })

unfoldable pub admin_user_update_view : ℕ → ℕ → UserForm → Action Done
unfolding find_user has_dashboard_access user_can_manage_target roles_assignable_by new_parent
    with_numbers save_user
admin_user_update_view a k form = do
  actor ← or_raise (← gets (find_user a)) login_required
  raise_if (not (has_dashboard_access actor)) login_required
  target ← or_raise (← gets (find_user k)) does_not_exist
  raise_if (not (user_can_manage_target actor target)) permission_denied
  role ← or_raise (assignable actor form.role) role_not_allowed
  parent ← new_parent actor target form.parent_id
  edited ← with_numbers (record target { role = role; parent = parent }) form
  save_user edited

-- The body of an update by the API, where a field may be missing.
pub record UserChanges : Type 0 where
  pub role : Option Role
  pub parent : Option (Option ℕ)
  pub commission_rate : Option Percent
  pub min_bet_amount : Option (Option Money)
  pub max_bet_amount : Option (Option Money)
  pub is_betting_enabled : Option Bool

abbrev pub same_parent : Option ℕ → Option ℕ → Bool
same_parent none none = true
same_parent none (some k) = false
same_parent (some k) p = is_parent p k

abbrev pub moves_parent : User → Option (Option ℕ) → Bool
moves_parent target none = false
moves_parent target (some p) = not (same_parent p target.parent)

-- `AdminUserUpdateSerializer.validate`
unfoldable pub validate : User → User → UserChanges → Action Done
unfolding user_can_manage_target roles_assignable_by
validate actor target attrs = do
  raise_if (not (user_can_manage_target actor target)) permission_denied
  raise_if (not (roles_assignable_by actor (get_or attrs.role target.role))) role_not_allowed
  raise_if (moves_parent target attrs.parent && not (is_full_admin actor)) parent_not_allowed

-- `AdminUserUpdateView`: its permissions, the validation, and the fields that it sets
unfoldable pub admin_user_update : ℕ → ℕ → UserChanges → Action Done
unfolding find_user validate save_user has_dashboard_access user_can_manage_target
admin_user_update a k attrs = do
  actor ← or_raise (← gets (find_user a)) login_required
  raise_if (not (has_dashboard_access actor)) permission_denied
  target ← or_raise (← gets (find_user k)) does_not_exist
  raise_if (not (user_can_manage_target actor target)) permission_denied
  validate actor target attrs
  save_user (record target {
    role = get_or attrs.role target.role;
    parent = get_or attrs.parent target.parent;
    commission_rate = get_or attrs.commission_rate target.commission_rate;
    min_bet_amount = get_or attrs.min_bet_amount target.min_bet_amount;
    max_bet_amount = get_or attrs.max_bet_amount target.max_bet_amount;
    is_betting_enabled = get_or attrs.is_betting_enabled target.is_betting_enabled;
  })

-- `UserManager.create_user`, as registration calls it
unfoldable pub create_user : Currency → Action Done
create_user currency = modify λ s. record s {
  users =
      s.users
      ++ record {
        id = suc (length s.users);
        role = Role.user;
        is_staff = false;
        is_superuser = false;
        currency = currency;
        parent = none;
        commission_rate = pos 0;
        min_bet_amount = none;
        max_bet_amount = none;
        is_betting_enabled = true;
        cashback_enabled_override = none;
        cashback_rate_override = none;
        cashback_wagering_multiplier_override = none;
        is_house_account = false;
        odds_adjustment_override = none;
        lay_spread_override = none;
      }
        ∷ [];
}

-- A request of a logged in user, or a registration.
pub data Request : Type 0 where
  edit_form : ℕ → ℕ → UserForm → Request
  edit_api : ℕ → ℕ → UserChanges → Request
  register : Currency → Request

unfoldable pub handle : Request → Action Done
unfolding admin_user_update_view admin_user_update create_user
handle (edit_form a k form) = admin_user_update_view a k form
handle (edit_api a k attrs) = admin_user_update a k attrs
handle (register currency) = create_user currency

unfoldable pub handle_all : List Request → Database → Database
unfolding handle
handle_all [] s = s
handle_all (r ∷ rs) s = handle_all rs (s ▸ handle r)
