-- ===== src/Accounts/Permissions.antt =====
-- backend/apps/accounts/permissions.py, and the gates of backend/apps/common/permissions.py and of the
-- dashboard in backend/apps/web/views.py. The actor is logged in.
use quickpaybet.Prelude.{ℕ, Bool, true, false, ◌||◌, Option, none, some, ◌==◌, if◌then◌else◌}
use quickpaybet.Models.Accounts.{User, Role, user, agent, master, admin, is_master, is_admin}

abbrev pub is_full_admin : User → Bool
is_full_admin actor = actor.is_superuser || (actor.is_staff || is_admin actor.role)

abbrev pub is_parent : Option ℕ → ℕ → Bool
is_parent none k = false
is_parent (some p) k = p == k

unfoldable pub user_can_manage_target : User → User → Bool
user_can_manage_target actor target =
    if is_full_admin actor
    then true
    else if is_master actor.role
    then is_parent target.parent actor.id
    else false

-- Agents and users, the roles that a master may assign.
abbrev pub is_below_master : Role → Bool
is_below_master agent = true
is_below_master user = true
is_below_master master = false
is_below_master admin = false

-- Whether a role is in the set.
unfoldable pub roles_assignable_by : User → Role → Bool
roles_assignable_by actor role =
    if is_full_admin actor
    then true
    else if is_master actor.role
    then is_below_master role
    else false

-- `_has_dashboard_access`, and `IsAdminOrMaster.has_permission`
unfoldable pub has_dashboard_access : User → Bool
has_dashboard_access actor = actor.is_staff || (is_admin actor.role || is_master actor.role)
