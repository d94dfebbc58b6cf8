-- ===== src/Accounts/Confined.antt =====
-- What an update of a user may change, when its actor is not a full admin.
use quickpaybet.Prelude.{
  ℕ, Bool, true, false, not, ◌&&◌, ◌≡◌, refl, ◌∙◌, sym, Option, none, some, get_or, Bool-cases, inl,
  inr, arith, ==_iff, ap, ◌⊎◌,
}
use quickpaybet.Prelude.Table.{put_row}
use quickpaybet.Models.Accounts.{User, Role, is_master}
use quickpaybet.Models.Database.{Database}
use quickpaybet.Action.{Action, Done, Error, raise_if, ◌>>=◌, ◌▸◌}
use quickpaybet.Action.Triple.{
  Triple, Keeps, bind-Triple, modify-Triple, raise_if-Triple, read_then-Triple, read-Triple, given,
  after, left, relax, returns-Triple, or_raise-Triple, Keeps-pure, Keeps-raise, Keeps-raise_if,
}
use quickpaybet.Accounts.Permissions.{
  is_full_admin, is_parent, is_below_master, user_can_manage_target, roles_assignable_by,
}
use quickpaybet.Accounts.Requests.{
  Field, UserForm, UserChanges, find_user, save_user, optional, with_numbers, new_parent,
  assignable, same_parent, moves_parent, validate, admin_user_update_view, admin_user_update,
}

abbrev pub admin_in : Option User → Bool
admin_in none = false
admin_in (some u) = is_full_admin u

-- The row that `user.save()` writes, beside the row that was there and the actor's.
pub record Confined (actor target v : User) : Type 0 where
  pub by_master : is_master actor.role ≡ true
  pub child : is_parent target.parent actor.id ≡ true
  pub same_id : v.id ≡ target.id
  pub kept_parent : v.parent ≡ target.parent
  pub kept_staff : v.is_staff ≡ target.is_staff
  pub kept_superuser : v.is_superuser ≡ target.is_superuser
  pub below : is_below_master v.role ≡ true

pub record Edited (a k : ℕ) (s t : Database) : Type 0 where
  pub actor : User
  pub target : User
  pub row : User
  pub actor_found : find_user a s ≡ some actor
  pub target_found : find_user k s ≡ some target
  pub confined : Confined actor target row
  pub saved : t ≡ record s { users = put_row User.id row s.users }

-- The fields that say who may do what.
record Kept (w v : User) : Type 0 where
  id : v.id ≡ w.id
  role : v.role ≡ w.role
  parent : v.parent ≡ w.parent
  is_staff : v.is_staff ≡ w.is_staff
  is_superuser : v.is_superuser ≡ w.is_superuser

manages_child :
    (actor target : User)
    → is_full_admin actor ≡ false
    → user_can_manage_target actor target ≡ true
    → (is_master actor.role ≡ true) × (is_parent target.parent actor.id ≡ true)
unfolding user_can_manage_target
manages_child actor target weak h = ground (arith, weak, h)

assigns_below :
    (actor : User) (r : Role)
    → is_full_admin actor ≡ false
    → roles_assignable_by actor r ≡ true
    → is_below_master r ≡ true
unfolding roles_assignable_by
assigns_below actor r weak h = ground (arith, weak, h)

assignable-role :
    (actor : User) (o : Option Role) (r : Role)
    → assignable actor o ≡ some r
    → roles_assignable_by actor r ≡ true
assignable-role actor none r h = cc
assignable-role actor (some x) r h = elim (Bool-cases (roles_assignable_by actor x)) [
  | inl e ↦ let q : x ≡ r = cc (rw e at h) in rw (sym q) e
  | inr e ↦ cc (rw e at h)
]

same_parent-eq : (p q : Option ℕ) → same_parent p q ≡ true → p ≡ q
same_parent-eq none none h = refl
same_parent-eq none (some k) h = cc
same_parent-eq (some k) none h = cc
same_parent-eq (some k) (some j) h = ap some (sym ((==_iff j k).0 h))

stays_parent :
    (actor target : User) (p : Option (Option ℕ))
    → is_full_admin actor ≡ false
    → (moves_parent target p && not (is_full_admin actor)) ≡ false
    → get_or p target.parent ≡ target.parent
stays_parent actor target none weak h = refl
stays_parent actor target (some p) weak h = same_parent-eq p target.parent (ground (arith, weak, h))

abbrev Valid : User → User → UserChanges → Type 0
Valid actor target attrs =
    (roles_assignable_by actor (get_or attrs.role target.role) ≡ true)
    × ((moves_parent target attrs.parent && not (is_full_admin actor)) ≡ false)

not-false : (b : Bool) → not b ≡ false → b ≡ true
not-false true h = refl
not-false false h = cc

module _ (s : Database) where
  abbrev pub Here : Database → Type 0
  Here t = t ≡ s

  pub guard-Here :
      (c : Bool) (e : Error) → Triple Here Here (raise_if c e) (λ _ t. Here t × (c ≡ false))
  guard-Here c e = raise_if-Triple c e (λ t h. h)

  pub optional-Here : {A : Type 0} (f : Field A) → Keeps Here (optional f)
  unfolding optional
  optional-Here Field.blank = Keeps-pure _
  optional-Here Field.invalid = Keeps-raise _
  optional-Here (Field.value a) = Keeps-pure _

  -- The form's numbers change none of the fields that say who may do what.
  with_numbers-keeps :
      (w : User) (form : UserForm)
      → Triple Here Here (with_numbers w form) (λ v t. Here t × Kept w v)
  unfolding with_numbers
  with_numbers-keeps w form = bind-Triple (optional-Here _) λ _. bind-Triple (optional-Here _) λ _.
      bind-Triple (optional-Here _) λ _. bind-Triple (Keeps-raise_if _ _) λ _.
        bind-Triple (Keeps-raise_if _ _) λ _. bind-Triple (Keeps-raise_if _ _) λ _.
          bind-Triple (optional-Here _) λ _. bind-Triple (Keeps-raise_if _ _) λ _.
            bind-Triple (optional-Here _) λ _. bind-Triple (Keeps-raise_if _ _) λ _.
              returns-Triple _ λ t h. (
                h,
                record {
                  id = refl;
                  role = refl;
                  parent = refl;
                  is_staff = refl;
                  is_superuser = refl;
                },
              )

  new_parent-keeps :
      (actor target : User) (f : Field ℕ)
      → is_full_admin actor ≡ false
      → Triple Here Here (new_parent actor target f) (λ p t. Here t × (p ≡ target.parent))
  unfolding new_parent
  new_parent-keeps actor target f weak = rw weak (returns-Triple target.parent λ t h. (h, refl))

  save_user-saves :
      (v : User)
      → Triple Here Here (save_user v) (λ _ t. t ≡ record s { users = put_row User.id v s.users })
  unfolding save_user
  save_user-saves v =
      read-Triple s _ _ (bind-Triple (Keeps-raise_if _ _) λ _. modify-Triple _ λ t h. rw h refl)

  not_admin :
      (a : ℕ) (actor : User)
      → admin_in (find_user a s) ≡ false
      → find_user a s ≡ some actor
      → is_full_admin actor ≡ false
  not_admin a actor weak found = rw found at weak

  validate-Here :
      (actor target : User) (attrs : UserChanges)
      → Triple Here Here (validate actor target attrs) (λ _ t. Here t × Valid actor target attrs)
  unfolding validate
  validate-Here actor target attrs = bind-Triple (Keeps-raise_if _ _) λ _.
      bind-Triple (guard-Here _ _)
        λ _. given λ allowed. after (λ _ t h. (h.0, (not-false _ allowed, h.1))) (guard-Here _ _)

  module _ (a k : ℕ) (weak : admin_in (find_user a s) ≡ false) (actor target : User) where
    -- The end of an update, which saves the row.
    save-Edited :
        (v : User)
        → find_user a s ≡ some actor
        → find_user k s ≡ some target
        → Confined actor target v
        → Triple Here Here (save_user v) (λ _. Edited a k s)
    save-Edited v found row c =
        after
          (λ _ t saved. record {
            actor = actor;
            target = target;
            row = v;
            actor_found = found;
            target_found = row;
            confined = c;
            saved = saved;
          })
          (save_user-saves v)

    may_save :
        (r : Role) (v : User)
        → find_user a s ≡ some actor
        → user_can_manage_target actor target ≡ true
        → roles_assignable_by actor r ≡ true
        → Kept (record target { role = r }) v
        → Confined actor target v
    may_save r v found manages allowed same =
        let low = not_admin a actor weak found in
        let (m, c) = manages_child actor target low manages in
        record {
          by_master = m;
          child = c;
          same_id = same.id;
          kept_parent = same.parent;
          kept_staff = same.is_staff;
          kept_superuser = same.is_superuser;
          below = rw same.role (assigns_below actor r low allowed);
        }

    form_end-Edited :
        (r : Role) (form : UserForm)
        → find_user a s ≡ some actor
        → find_user k s ≡ some target
        → user_can_manage_target actor target ≡ true
        → roles_assignable_by actor r ≡ true
        → Triple Here Here
            (new_parent actor target form.parent_id >>= λ p.
              with_numbers (record target { role = r; parent = p }) form >>= save_user)
            (λ _. Edited a k s)
    form_end-Edited r form found row manages allowed =
        bind-Triple (new_parent-keeps actor target form.parent_id (not_admin a actor weak found))
          λ p. given {F = p ≡ target.parent} λ parent.
            bind-Triple (with_numbers-keeps (record target { role = r; parent = p }) form) λ v.
              given {F = Kept (record target { role = r; parent = p }) v} λ same.
                save-Edited v found row (
                  may_save r v found manages allowed (record {
                    id = same.id;
                    role = same.role;
                    parent = same.parent ∙ parent;
                    is_staff = same.is_staff;
                    is_superuser = same.is_superuser;
                  }))

  module _ (a k : ℕ) (weak : admin_in (find_user a s) ≡ false) where
    pub form-Edited :
        (form : UserForm) → Triple Here Here (admin_user_update_view a k form) (λ _. Edited a k s)
    unfolding admin_user_update_view
    form-Edited form = read_then-Triple s (find_user a) _ _ refl λ actor found.
        bind-Triple (Keeps-raise_if _ _) λ _.
          read_then-Triple s (find_user k) _ _ refl λ target row. bind-Triple (guard-Here _ _) λ _.
            given λ manages.
              bind-Triple (or_raise-Triple (assignable actor form.role) _ (λ t h. h)) λ r.
                given λ role.
                  form_end-Edited a k weak actor target r form found row (not-false _ manages)
                    (assignable-role actor form.role r role)

    pub api-Edited :
        (attrs : UserChanges) → Triple Here Here (admin_user_update a k attrs) (λ _. Edited a k s)
    unfolding admin_user_update validate
    api-Edited attrs = read_then-Triple s (find_user a) _ _ refl λ actor found.
        bind-Triple (Keeps-raise_if _ _) λ _.
          read_then-Triple s (find_user k) _ _ refl λ target row. bind-Triple (guard-Here _ _) λ _.
            given λ manages. bind-Triple (validate-Here actor target attrs) λ _. given λ valid.
              save-Edited a k weak actor target _ found row (
                may_save a k weak actor target (get_or attrs.role target.role) _ found
                  (not-false _ manages) valid.0
                  (record {
                    id = refl;
                    role = refl;
                    parent =
                        stays_parent actor target attrs.parent (not_admin a actor weak found)
                          valid.1;
                    is_staff = refl;
                    is_superuser = refl;
                  }))

abbrev pub Outcome : ℕ → ℕ → Database → Database → Type 0
Outcome a k s t = (t ≡ s) ⊎ Edited a k s t

Triple-Outcome :
    (a k : ℕ) (s : Database) (m : Action Done)
    → Triple (λ t. t ≡ s) (λ t. t ≡ s) m (λ _. Edited a k s)
    → Outcome a k s (s ▸ m)
Triple-Outcome a k s m h = left (relax (λ t e. inl e) (after (λ _ t e. inr e) h)) s refl

pub form-Outcome :
    (a k : ℕ) (form : UserForm) (s : Database)
    → admin_in (find_user a s) ≡ false
    → Outcome a k s (s ▸ admin_user_update_view a k form)
form-Outcome a k form s weak = Triple-Outcome a k s _ (form-Edited s a k weak form)

pub api-Outcome :
    (a k : ℕ) (attrs : UserChanges) (s : Database)
    → admin_in (find_user a s) ≡ false
    → Outcome a k s (s ▸ admin_user_update a k attrs)
api-Outcome a k attrs s weak = Triple-Outcome a k s _ (api-Edited s a k weak attrs)

-- An update of a user, by the dashboard or by the API, whose actor is not a full admin either changes no table or changes one row of users alone: that of a direct child of the actor, who is a master; the child keeps its parent and its staff and superuser flags, and its role is then agent or user.
pub updates-AreConfined :
    (a k : ℕ) (form : UserForm) (attrs : UserChanges) (s : Database)
    → admin_in (find_user a s) ≡ false
    → Outcome a k s (s ▸ admin_user_update_view a k form)
      × Outcome a k s (s ▸ admin_user_update a k attrs)
updates-AreConfined a k form attrs s weak =
    (form-Outcome a k form s weak, api-Outcome a k attrs s weak)
