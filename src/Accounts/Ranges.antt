-- ===== src/Accounts/Ranges.antt =====
-- The numbers of a user that the dashboard's form has saved.
use quickpaybet.Prelude.{ℕ, false, ◌≡◌, refl, Option, none, some, get_or, Bool-cases, inl, inr}
use quickpaybet.Prelude.Int.{ℤ, pos, ltb_ℤ, ◌≤ℤ◌, ltb_ℤ→ge}
use quickpaybet.Prelude.Table.{get-put_at}
use quickpaybet.Models.Accounts.{User}
use quickpaybet.Models.Money.{Money, Percent}
use quickpaybet.Models.Database.{Database}
use quickpaybet.Action.{Done, ok, returns, ◌▸◌}
use quickpaybet.Action.Triple.{
  Triple, bind-Triple, modify-Triple, read_then-Triple, read-Triple, given, returns-Triple,
  when_done, Keeps-raise_if, Keeps-if, Keeps-or_raise, Keeps-pure,
}
use quickpaybet.Accounts.Permissions.{is_full_admin}
use quickpaybet.Accounts.Requests.{
  UserForm, Field, find_user, save_user, with_numbers, new_parent, assignable, is_negative,
  is_outside, admin_user_update_view,
}
use quickpaybet.Accounts.Confined.{Here, guard-Here, optional-Here}

-- A number between 0 and `most`, or none.
abbrev pub Within : ℤ → Option Percent → Type 0
Within most none = Unit
Within most (some v) = (pos 0 ≤ℤ v) × (v ≤ℤ most)

abbrev pub NotNegative : Option Money → Type 0
NotNegative none = Unit
NotNegative (some v) = pos 0 ≤ℤ v

pub record InRange (u : User) : Type 0 where
  pub commission : (pos 0 ≤ℤ u.commission_rate) × (u.commission_rate ≤ℤ pos 10000)
  pub least_bet : NotNegative u.min_bet_amount
  pub most_bet : NotNegative u.max_bet_amount
  pub rate : Within (pos 9900) u.cashback_rate_override
  pub multiplier : Within (pos 2000) u.cashback_wagering_multiplier_override

outside-Within : (most : ℤ) (o : Option Percent) → is_outside most o ≡ false → Within most o
outside-Within most none h = tt
outside-Within most (some v) h = elim (Bool-cases (ltb_ℤ v (pos 0))) [
  | inl e ↦ cc (rw e at h)
  | inr e ↦ (ltb_ℤ→ge v (pos 0) e, ltb_ℤ→ge most v (rw e at h))
]

negative-NotNegative : (o : Option Money) → is_negative o ≡ false → NotNegative o
negative-NotNegative none h = tt
negative-NotNegative (some v) h = ltb_ℤ→ge v (pos 0) h

record Fits (v : User) (i : ℕ) : Type 0 where
  fits : InRange v
  same : v.id ≡ i

module _ (s : Database) where
  with_numbers-InRange :
      (w : User) (form : UserForm)
      → Triple (Here s) (Here s) (with_numbers w form) (λ v t. Here s t × Fits v w.id)
  unfolding with_numbers
  with_numbers-InRange w form = bind-Triple (optional-Here s _) λ least.
      bind-Triple (optional-Here s _) λ most. bind-Triple (optional-Here s _) λ raw.
        bind-Triple (guard-Here s _ _) λ _. given λ c. bind-Triple (guard-Here s _ _) λ _.
          given λ l. bind-Triple (guard-Here s _ _) λ _. given λ m.
            bind-Triple (optional-Here s _) λ rate. bind-Triple (guard-Here s _ _) λ _. given λ r.
              bind-Triple (optional-Here s _) λ multiplier. bind-Triple (guard-Here s _ _) λ _.
                given λ x. returns-Triple _ λ t h. (
                  h,
                  record {
                    fits = record {
                      commission = outside-Within (pos 10000) (some (get_or raw (pos 0))) c;
                      least_bet = negative-NotNegative least l;
                      most_bet = negative-NotNegative most m;
                      rate = outside-Within (pos 9900) rate r;
                      multiplier = outside-Within (pos 2000) multiplier x;
                    };
                    same = refl;
                  },
                )

  new_parent-reads :
      (actor target : User) (f : Field ℕ)
      → Triple (Here s) (Here s) (new_parent actor target f) (λ _. Here s)
  unfolding new_parent
  new_parent-reads actor target f =
      Keeps-if (is_full_admin actor) _ _ (optional-Here s f) (Keeps-pure target.parent)

  abbrev Saved : ℕ → Done → Database → Type 0
  Saved k d t = (v : User) × (find_user k t ≡ some v) × InRange v

  save-Saved :
      (k : ℕ) (u v : User)
      → find_user k s ≡ some u
      → v.id ≡ u.id
      → InRange v
      → Triple (Here s) (Here s) (save_user v) (Saved k)
  unfolding save_user find_user
  save-Saved k u v found same fits = read-Triple s _ _ (
      bind-Triple (Keeps-raise_if _ _)
        λ _. modify-Triple _ λ t h. (v, rw h (get-put_at User.id k u v s.users found same), fits))

  form-Saved :
      (a k : ℕ) (form : UserForm)
      → Triple (Here s) (Here s) (admin_user_update_view a k form) (Saved k)
  unfolding admin_user_update_view
  form-Saved a k form = read_then-Triple s (find_user a) _ _ refl λ actor found.
      bind-Triple (Keeps-raise_if _ _) λ _. read_then-Triple s (find_user k) _ _ refl λ target row.
        bind-Triple (Keeps-raise_if _ _) λ _.
          bind-Triple (Keeps-or_raise (assignable actor form.role) _) λ r.
            bind-Triple (new_parent-reads actor target form.parent_id) λ p.
              bind-Triple (with_numbers-InRange (record target { role = r; parent = p }) form)
                λ v. given {F = Fits v target.id} λ f. save-Saved k target v row f.same f.fits

-- When the dashboard's update of a user returns, the user's stored commission rate is between 0 and 100 %, its bet limits are not negative, and its cashback overrides are absent or between 0 and 99 % and between 0 and 20.
pub admin_user_update_view-InRange :
    (a k : ℕ) (form : UserForm) (s : Database)
    → returns (admin_user_update_view a k form) s ≡ ok tt
    → (v : User) × (find_user k (s ▸ admin_user_update_view a k form) ≡ some v) × InRange v
admin_user_update_view-InRange a k form s done = when_done (form-Saved s a k form) s refl done
