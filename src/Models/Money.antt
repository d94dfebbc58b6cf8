-- ===== src/Models/Money.antt =====
-- Amounts and rates as integer counts of the last decimal place of their column: a wallet amount
-- counts 0.00000001, odds count 0.01, a percentage counts 0.01.
use quickpaybet.Prelude.{ℕ, ◌*◌, ◌+◌, ◌<◌, ◌≤◌, ◌≡◌, ap, sym, ◌∙◌, arith}
use native.Mathlib.Nat.{le_of_mul-le-mul_right}
use quickpaybet.Prelude.Int.{
  ℤ, pos, pos_part, neg_part, ◌*ℤ◌, ◌+ℤ◌, ◌≤ℤ◌, int_laws, *ℤ_parts, +ℤ_parts,
}

abbrev pub Money : Type 0
Money = ℤ

abbrev pub Odds : Type 0
Odds = ℤ

abbrev pub Percent : Type 0
Percent = ℤ

-- How the database stores a decimal that has more places than its column, `n / d` of the column's
-- unit. The program leaves this to Django and the database (SQLite through Django rounds half to
-- even, PostgreSQL rounds half away from zero), so the model takes it as an instance. Both store
-- what fits unchanged, and otherwise a nearest value.
pub record Column : Type 0 where
  pub store : ℤ → ℕ → ℤ
  pub store_exact : (m : ℤ) (d : ℕ) → 0 < d → store (m *ℤ pos d) d ≡ m
  pub store_below : (n : ℤ) (d : ℕ) → 0 < d → pos 2 *ℤ (store n d *ℤ pos d) ≤ℤ pos 2 *ℤ n +ℤ pos d
  pub store_above : (n : ℤ) (d : ℕ) → 0 < d → pos 2 *ℤ n ≤ℤ pos 2 *ℤ (store n d *ℤ pos d) +ℤ pos d

-- The column's value for `n / d` units.
abbrev pub store : ⦃c : Column⦄ → ℤ → ℕ → ℤ
store ⦃c⦄ = c.store

mul_one : (m : ℤ) → m *ℤ pos 1 ≡ m
mul_one m = omega (int_laws, *ℤ_parts m (pos 1))

module _ ⦃c : Column⦄ where
  -- A value of the column is stored unchanged.
  pub store_one : (m : ℤ) → store m 1 ≡ m
  store_one m = ap (λ n. store n 1) (sym (mul_one m)) ∙ c.store_exact m 1 (omega arith)

  -- Adding first and rounding then, or rounding first, are at most one unit apart.
  pub store-add_slack :
      (b n : ℤ) (d : ℕ)
      → 0 < d
      → (store (b *ℤ pos d +ℤ n) d ≤ℤ b +ℤ store n d +ℤ pos 1)
        × (b +ℤ store n d ≤ℤ store (b *ℤ pos d +ℤ n) d +ℤ pos 1)
  store-add_slack b n d p =
      let x = b *ℤ pos d in
      let S = store (x +ℤ n) d in
      let s = store n d in
      let below : (pos_part S + neg_part b + neg_part s) * d
          ≤ (pos_part b + pos_part s + neg_part S + 1) * d =
        omega (
          arith,
          *ℤ_parts b (pos d),
          *ℤ_parts S (pos d),
          *ℤ_parts s (pos d),
          *ℤ_parts (pos 2) (S *ℤ pos d),
          *ℤ_parts (pos 2) (s *ℤ pos d),
          *ℤ_parts (pos 2) (x +ℤ n),
          *ℤ_parts (pos 2) n,
          +ℤ_parts x n,
          +ℤ_parts (pos 2 *ℤ (x +ℤ n)) (pos d),
          +ℤ_parts (pos 2 *ℤ (s *ℤ pos d)) (pos d),
          c.store_below (x +ℤ n) d p,
          c.store_above n d p,
        ) in
      let above : (pos_part b + pos_part s + neg_part S) * d
          ≤ (pos_part S + neg_part b + neg_part s + 1) * d =
        omega (
          arith,
          *ℤ_parts b (pos d),
          *ℤ_parts S (pos d),
          *ℤ_parts s (pos d),
          *ℤ_parts (pos 2) (S *ℤ pos d),
          *ℤ_parts (pos 2) (s *ℤ pos d),
          *ℤ_parts (pos 2) (x +ℤ n),
          *ℤ_parts (pos 2) n,
          +ℤ_parts x n,
          +ℤ_parts (pos 2 *ℤ (S *ℤ pos d)) (pos d),
          +ℤ_parts (pos 2 *ℤ n) (pos d),
          c.store_above (x +ℤ n) d p,
          c.store_below n d p,
        ) in
      let lo = le_of_mul-le-mul_right below p in
      let hi = le_of_mul-le-mul_right above p in
      (omega (int_laws, lo, hi), omega (int_laws, lo, hi))

  -- Without places to round, nothing is lost.
  pub store-add_one : (b n : ℤ) → store (b *ℤ pos 1 +ℤ n) 1 ≡ b +ℤ n
  store-add_one b n = rw mul_one (store_one (b +ℤ n))
