-- ===== src/Tests/Accounts.antt =====
-- A master, its child, and an admin, on small inputs.
use quickpaybet.Prelude.{◌≡◌, refl, true, none, some, [], ◌∷◌, ◌≤◌, arith}
use quickpaybet.Prelude.Int.{pos}
use quickpaybet.Prelude.Table.{get_row, put_row}
use quickpaybet.Models.Accounts.{User, Role, usd}
use quickpaybet.Models.Database.{Database}
use quickpaybet.Action.{err, permission_denied, role_not_allowed, returns, ◌▸◌, ◌>>=◌}
use quickpaybet.Accounts.Permissions.{roles_assignable_by}
use quickpaybet.Accounts.Requests.{
  Field, UserForm, UserChanges, edit_form, edit_api, register, find_user, admin_user_update_view,
  admin_user_update, handle_all,
}
use quickpaybet.Accounts.Confined.{Outcome, updates-AreConfined}
use quickpaybet.Accounts.Ranges.{InRange, admin_user_update_view-InRange}
use quickpaybet.Accounts.Escalation.{power_of, handle_all_escalates_nobody}
use quickpaybet.Tests.Data.{units, bettor, fresh}

abbrev owner : User
owner = record bettor { id = 1; role = Role.admin; parent = none }

abbrev chief : User
chief = record bettor { id = 2; role = Role.master; parent = none }

abbrev child : User
child = record bettor { id = 3; role = Role.user; parent = some 2 }

abbrev office : Database
office = record fresh { users = owner ∷ chief ∷ child ∷ [] }

abbrev to_agent : UserForm
to_agent = record {
  role = some Role.agent;
  parent_id = Field.value 1;
  min_bet_amount = Field.blank;
  max_bet_amount = Field.value (units 500);
  commission_rate = Field.value (pos 250);
  is_betting_enabled = true;
  cashback_enabled_override = none;
  cashback_rate_override = Field.blank;
  cashback_wagering_multiplier_override = Field.blank;
}

abbrev to_master : UserChanges
to_master = record {
  role = some Role.master;
  parent = none;
  commission_rate = none;
  min_bet_amount = none;
  max_bet_amount = none;
  is_betting_enabled = none;
}

-- The parent of the form is ignored.
child_made_agent :
    find_user 3 (office ▸ admin_user_update_view 2 3 to_agent)
    ≡ some (record child {
      role = Role.agent;
      min_bet_amount = none;
      max_bet_amount = some (units 500);
      commission_rate = pos 250;
    })
unfolding admin_user_update_view ◌>>=◌ get_row put_row roles_assignable_by
child_made_agent = refl

no_master_made : returns (admin_user_update 2 3 to_master) office ≡ err role_not_allowed
unfolding admin_user_update ◌>>=◌ get_row
no_master_made = refl

no_stranger : returns (admin_user_update_view 2 1 to_agent) office ≡ err permission_denied
unfolding admin_user_update_view ◌>>=◌ get_row
no_stranger = refl

updates-AreConfined_example :
    Outcome 2 3 office (office ▸ admin_user_update_view 2 3 to_agent)
    × Outcome 2 3 office (office ▸ admin_user_update 2 3 to_master)
unfolding find_user get_row
updates-AreConfined_example = updates-AreConfined 2 3 to_agent to_master office refl

handle_all_escalates_nobody_example :
    power_of 3 (
      handle_all
        (edit_form 2 3 to_agent
          ∷ edit_api 2 3 to_master
          ∷ register usd
          ∷ edit_api 3 2 to_master
          ∷ [])
        office)
    ≤ power_of 3 office
unfolding power_of find_user get_row
handle_all_escalates_nobody_example =
    handle_all_escalates_nobody
      (edit_form 2 3 to_agent ∷ edit_api 2 3 to_master ∷ register usd ∷ edit_api 3 2 to_master ∷ [])
      office (omega arith, (omega arith, (tt, (omega arith, tt)))) 3

admin_user_update_view-InRange_example :
    (v : User) × (find_user 3 (office ▸ admin_user_update_view 2 3 to_agent) ≡ some v) × InRange v
unfolding admin_user_update_view ◌>>=◌ get_row put_row
admin_user_update_view-InRange_example = admin_user_update_view-InRange 2 3 to_agent office refl
