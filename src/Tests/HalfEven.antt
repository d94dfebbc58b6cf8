-- ===== src/Tests/HalfEven.antt =====
-- A column that rounds half to even, for the tests: one function that has the laws of `Column`.
use quickpaybet.Prelude.{ℕ, zero, suc, ◌*◌, ◌<◌, ◌≡◌, ap, refl, arith}
use quickpaybet.Prelude.Int.{
  ℤ, pos, negsuc, neg, ◌*ℤ◌, ◌+ℤ◌, ◌≤ℤ◌, int_laws, *ℤ_parts, *ℤ_pos, neg_parts,
}
use quickpaybet.Prelude.Decimal.{
  quantize, by_sign, half_even, half_even_bounds, half_even-multiple, half_even-le,
}
use quickpaybet.Models.Money.{Column}

mul_negsuc : (a d : ℕ) → negsuc a *ℤ pos d ≡ neg (pos (suc a * d))
mul_negsuc a d = omega (int_laws, *ℤ_parts (negsuc a) (pos d))

quantize-neg : (k d : ℕ) → 0 < d → quantize (neg (pos k)) d ≡ neg (pos (half_even k d))
unfolding by_sign
quantize-neg zero d h =
    let nothing : half_even 0 d ≡ 0 = omega (arith, half_even-le 0 0 d h (omega arith)) in
    let none_left : neg (pos 0) ≡ pos 0 = omega int_laws in rw (nothing, none_left, nothing) refl
quantize-neg (suc k) d h =
    let below : neg (pos (suc k)) ≡ negsuc k = omega int_laws in rw below refl

pub quantize_exact : (m : ℤ) (d : ℕ) → 0 < d → quantize (m *ℤ pos d) d ≡ m
quantize_exact (pos a) d h = rw *ℤ_pos (unfold by_sign in ap pos (half_even-multiple a d h))
quantize_exact (negsuc a) d h =
    rw (mul_negsuc, quantize-neg (suc a * d) d h, half_even-multiple (suc a) d h) (omega int_laws)

module _ (d : ℕ) (h : 0 < d) where
  pub quantize_near :
      (n : ℤ)
      → (pos 2 *ℤ (quantize n d *ℤ pos d) ≤ℤ pos 2 *ℤ n +ℤ pos d)
        × (pos 2 *ℤ n ≤ℤ pos 2 *ℤ (quantize n d *ℤ pos d) +ℤ pos d)
  unfolding by_sign
  quantize_near (pos n) =
      let q = pos (half_even n d) in
      let (lo, hi) = half_even_bounds n d h in
      (
        omega (
          int_laws,
          *ℤ_parts (pos 2) (q *ℤ pos d),
          *ℤ_parts q (pos d),
          *ℤ_parts (pos 2) (pos n),
          lo,
        ),
        omega (
          int_laws,
          *ℤ_parts (pos 2) (q *ℤ pos d),
          *ℤ_parts q (pos d),
          *ℤ_parts (pos 2) (pos n),
          hi,
        ),
      )
  quantize_near (negsuc n) =
      let q = neg (pos (half_even (suc n) d)) in
      let (lo, hi) = half_even_bounds (suc n) d h in
      (
        omega (
          int_laws,
          *ℤ_parts (pos 2) (q *ℤ pos d),
          *ℤ_parts q (pos d),
          *ℤ_parts (pos 2) (negsuc n),
          lo,
          hi,
          neg_parts (pos (half_even (suc n) d)),
          ap (λ t. t * d) (neg_parts (pos (half_even (suc n) d))).0,
          ap (λ t. t * d) (neg_parts (pos (half_even (suc n) d))).1,
        ),
        omega (
          int_laws,
          *ℤ_parts (pos 2) (q *ℤ pos d),
          *ℤ_parts q (pos d),
          *ℤ_parts (pos 2) (negsuc n),
          lo,
          hi,
          neg_parts (pos (half_even (suc n) d)),
          ap (λ t. t * d) (neg_parts (pos (half_even (suc n) d))).0,
          ap (λ t. t * d) (neg_parts (pos (half_even (suc n) d))).1,
        ),
      )

-- (`unfoldable`, for the tests to compute with it)
unfoldable pub half_even_column : Column
half_even_column = record {
  store = quantize;
  store_exact = quantize_exact;
  store_below = λ n d h. (quantize_near d h n).0;
  store_above = λ n d h. (quantize_near d h n).1;
}
