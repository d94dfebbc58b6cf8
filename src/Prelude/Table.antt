-- ===== src/Prelude/Table.antt =====
-- A table whose rows have a numeric key: reading a row by its key, and saving one.
use Prim.Native.Nat.{ℕ}
use mathlib.Core.Path.{◌≡◌, refl, sym, ◌∙◌, subst}
use mathlib.Core.Logic.{◌≢◌}
use mathlib.Core.List.{List, [], ◌∷◌, ◌++◌}
use mathlib.Core.Option.{Option, none, some}
use native.Mathlib.Omega.{arith}
use native.Mathlib.Decide.{ℕ_discrete as dec_eq}
use quickpaybet.Prelude.Tests.{◌==◌, if◌then◌else◌}

module _ {ℓ} {R : Type ℓ} (key : R → ℕ) where
  -- `objects.get(key=k)`; `none` is `DoesNotExist`.
  unfoldable pub get_row : ℕ → List R → Option R
  get_row k [] = none
  get_row k (x ∷ xs) = if key x == k then some x else get_row k xs

  -- `row.save()`
  unfoldable pub put_row : R → List R → List R
  put_row r [] = []
  put_row r (x ∷ xs) = (if key x == key r then r else x) ∷ put_row r xs

  pub get-put_self :
      (r r' : R) (xs : List R)
      → get_row (key r) xs ≡ some r'
      → get_row (key r) (put_row r xs) ≡ some r
  unfolding get_row put_row
  get-put_self r r' [] h = cc
  get-put_self r r' (x ∷ xs) h = ground (arith, get-put_self r r' xs)

  pub get-put_ne :
      (k : ℕ) (r : R) (xs : List R) → key r ≢ k → get_row k (put_row r xs) ≡ get_row k xs
  unfolding get_row put_row
  get-put_ne k r [] h = refl
  get-put_ne k r (x ∷ xs) h = ground (arith, get-put_ne k r xs h)

  -- A row that is read by `k` has the key `k`.
  pub key-get : (k : ℕ) (r : R) (xs : List R) → get_row k xs ≡ some r → key r ≡ k
  unfolding get_row
  key-get k r [] h = cc
  key-get k r (x ∷ xs) h = ground (arith, key-get k r xs)

  pub get-append :
      (k : ℕ) (r : R) (xs : List R)
      → get_row k xs ≡ none
      → get_row k (xs ++ r ∷ []) ≡ (if key r == k then some r else none)
  unfolding get_row
  get-append k r [] h = refl
  get-append k r (x ∷ xs) h = ground (arith, get-append k r xs)

  pub get-append_some :
      (k : ℕ) (r r' : R) (xs : List R) → get_row k xs ≡ some r' → get_row k (xs ++ r ∷ []) ≡ some r'
  unfolding get_row
  get-append_some k r r' [] h = cc
  get-append_some k r r' (x ∷ xs) h = ground (arith, get-append_some k r r' xs)

  -- The second of two saves of one row stands.
  pub put-put :
      (r r' : R) (xs : List R) → key r' ≡ key r → put_row r' (put_row r xs) ≡ put_row r' xs
  unfolding put_row
  put-put r r' [] h = refl
  put-put r r' (x ∷ xs) h = ground (arith, put-put r r' xs h)

  -- A row that is saved over the row that is read by `k` is read by `k`.
  pub get-put_at :
      (k : ℕ) (r r' : R) (xs : List R)
      → get_row k xs ≡ some r
      → key r' ≡ key r
      → get_row k (put_row r' xs) ≡ some r'
  get-put_at k r r' xs found same =
      let q = same ∙ key-get k r xs found in
      subst (λ j. get_row j (put_row r' xs) ≡ some r') q
        (get-put_self r' r xs (subst (λ j. get_row j xs ≡ some r) (sym q) found))

  -- Saving a row as it was read changes no reading.
  pub get-put_same :
      (k j : ℕ) (r : R) (xs : List R)
      → get_row k xs ≡ some r
      → get_row j (put_row r xs) ≡ get_row j xs
  get-put_same k j r xs found = elim (dec_eq k j) [
    | yes e ↦
        subst (λ i. get_row i (put_row r xs) ≡ get_row i xs) e
          (get-put_at k r r xs found refl ∙ sym found)
    | no e ↦ get-put_ne j r xs (λ (q : key r ≡ j). e (sym (key-get k r xs found) ∙ q))
  ]
