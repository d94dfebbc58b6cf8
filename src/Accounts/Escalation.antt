-- ===== src/Accounts/Escalation.antt =====
-- What requests of users who are not full admins do to the powers of users.
use quickpaybet.Prelude.{
  ℕ, Bool, true, false, ◌≡◌, refl, ◌∙◌, sym, Option, none, some, Option-cases, inl, inr, All, List,
  [], ◌∷◌, ◌++◌, ◌≤◌, ◌<◌, arith, ◌==◌, if◌then◌else◌,
}
use quickpaybet.Prelude.Table.{
  get_row, put_row, get-put_at, get-put_ne, key-get, get-append, get-append_some,
}
use native.Mathlib.Decide.{ℕ_discrete as dec_eq}
use quickpaybet.Models.Accounts.{User, Currency, is_master}
use quickpaybet.Models.Database.{Database}
use quickpaybet.Action.{◌▸◌}
use quickpaybet.Action.Triple.{left, Triple, modify-Triple}
use quickpaybet.Accounts.Confined.{admin_in, Confined, Outcome, form-Outcome, api-Outcome}
use quickpaybet.Accounts.Permissions.{is_full_admin}
use quickpaybet.Accounts.Requests.{
  Request, edit_form, edit_api, register, find_user, create_user, handle, handle_all,
}

-- A full admin's power is 2, a master's 1.
abbrev pub power : User → ℕ
power u = if is_full_admin u then 2 else if is_master u.role then 1 else 0

abbrev pub power_in : Option User → ℕ
power_in none = 0
power_in (some u) = power u

unfoldable pub power_of : ℕ → Database → ℕ
power_of k s = power_in (find_user k s)

-- No user has more power in `t` than in `s`.
abbrev Below : Database → Database → Type 0
Below s t = (k : ℕ) → power_of k t ≤ power_of k s

-- The row `v` is the user `u`, with at most its power.
abbrev Weaker : User → User → Type 0
Weaker u v = (v.id ≡ u.id) × (power v ≤ power u)

Below-self : (s t : Database) → t ≡ s → Below s t
Below-self s t e k = rw e (omega arith)

put-power :
    (k j : ℕ) (u v : User) (us : List User)
    → get_row User.id k us ≡ some u
    → Weaker u v
    → power_in (get_row User.id j (put_row User.id v us)) ≤ power_in (get_row User.id j us)
put-power k j u v us found (same, le) = elim (dec_eq k j) [
  | yes e ↦ rw (sym e, get-put_at User.id k u v us found same, found) le
  | no e ↦
      rw (get-put_ne User.id j v us (λ q. e (sym (key-get User.id k u us found) ∙ sym same ∙ q)))
        (omega arith)
]

weak_in : (a : ℕ) (s : Database) → power_of a s < 2 → admin_in (find_user a s) ≡ false
unfolding power_of
weak_in a s weak = elim (Option-cases (find_user a s)) [
  | inl e ↦ rw e refl
  | inr (u, e) ↦ rw e (ground (arith, rw e at weak))
]

-- The row that an update saves has at most the power of the row that was there.
power-Confined : (actor target v : User) → Confined actor target v → power v ≤ power target
power-Confined actor target v c = ground (arith, c.kept_staff, c.kept_superuser, c.below)

Outcome-Below : (a k : ℕ) (s t : Database) → Outcome a k s t → Below s t
unfolding power_of find_user
Outcome-Below a k s t (inl e) j = Below-self s t e j
Outcome-Below a k s t (inr e) j = rw e.saved (
    put-power k j e.target e.row s.users e.target_found
      (e.confined.same_id, power-Confined e.actor e.target e.row e.confined))

none_or-power : (b : Bool) (v : User) → power v ≡ 0 → power_in (if b then some v else none) ≤ 0
none_or-power true v zero = rw zero (omega arith)
none_or-power false v zero = omega arith

append-power :
    (k : ℕ) (v : User) (us : List User)
    → power v ≡ 0
    → power_in (get_row User.id k (us ++ v ∷ [])) ≤ power_in (get_row User.id k us)
append-power k v us zero = elim (Option-cases (get_row User.id k us)) [
  | inl e ↦ rw (get-append User.id k v us e, e) (none_or-power (v.id == k) v zero)
  | inr (u, e) ↦ rw (get-append_some User.id k v u us e, e) (omega arith)
]

create-Below :
    (s : Database) (currency : Currency)
    → Triple (Below s) (λ t. t ≡ s) (create_user currency) (λ _. Below s)
unfolding create_user power_of find_user
create-Below s currency = modify-Triple _ λ t h k. rw h (append-power k _ s.users refl)

-- The request is a registration, or its actor is not a full admin.
abbrev pub ByNoAdmin : Database → Request → Type 0
ByNoAdmin s (edit_form a k form) = power_of a s < 2
ByNoAdmin s (edit_api a k attrs) = power_of a s < 2
ByNoAdmin s (register currency) = Unit

handle-Below : (s : Database) (r : Request) → ByNoAdmin s r → Below s (s ▸ handle r)
unfolding handle
handle-Below s (edit_form a k form) weak =
    Outcome-Below a k s _ (form-Outcome a k form s (weak_in a s weak))
handle-Below s (edit_api a k attrs) weak =
    Outcome-Below a k s _ (api-Outcome a k attrs s (weak_in a s weak))
handle-Below s (register currency) weak = left (create-Below s currency) s refl

still-ByNoAdmin : (s t : Database) (r : Request) → Below s t → ByNoAdmin s r → ByNoAdmin t r
still-ByNoAdmin s t (edit_form a k form) le weak = omega (arith, le a)
still-ByNoAdmin s t (edit_api a k attrs) le weak = omega (arith, le a)
still-ByNoAdmin s t (register currency) le weak = tt

still-All :
    (s t : Database) (rs : List Request) → Below s t → All (ByNoAdmin s) rs → All (ByNoAdmin t) rs
still-All s t [] le weak = tt
still-All s t (r ∷ rs) le (w, ws) = (still-ByNoAdmin s t r le w, still-All s t rs le ws)

-- After any sequence of user updates, by the dashboard or by the API, and of registrations, where no update is by a user who is a full admin at the start, no user has more power than at the start, a full admin having more than a master and a master more than the others.
pub handle_all_escalates_nobody :
    (rs : List Request) (s : Database)
    → All (ByNoAdmin s) rs
    → (k : ℕ) → power_of k (handle_all rs s) ≤ power_of k s
unfolding handle_all
handle_all_escalates_nobody [] s weak k = omega arith
handle_all_escalates_nobody (r ∷ rs) s (w, ws) k =
    let step = handle-Below s r w in
    omega (
      arith,
      step k,
      handle_all_escalates_nobody rs (s ▸ handle r) (still-All s (s ▸ handle r) rs step ws) k,
    )
