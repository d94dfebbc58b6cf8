-- ===== src/Prelude/Decimal.antt =====
-- Python's `Decimal.quantize`, on a value given as an integer count of a unit, `n / d` of it being
-- kept: the three rounding modes of the program. A unit divided by zero does not occur: every
-- divisor is a positive literal, or a rate or odds that the program has validated.
use Prim.Native.Nat.{ℕ, suc, ◌+◌, ◌*◌, ◌/◌, ◌%◌, ◌≤◌, ◌<◌}
use mathlib.Core.Path.{◌≡◌}
use native.Mathlib.Omega.{arith}
use quickpaybet.Prelude.Tests.{ltb, ◌==◌, if◌then◌else◌}
use quickpaybet.Prelude.Int.{ℤ, pos, negsuc, neg}
use native.Mathlib.Nat.{div-add-mod, mod-lt}

-- The default context's ROUND_HALF_EVEN, on a magnitude.
unfoldable pub half_even : ℕ → ℕ → ℕ
half_even n d =
    let q = n / d in
    let r = n % d in
    if ltb (2 * r) d then q else if ltb d (2 * r) then q + 1 else if q % 2 == 0 then q else q + 1

unfoldable pub half_up : ℕ → ℕ → ℕ
half_up n d = if ltb (2 * (n % d)) d then n / d else n / d + 1

-- A rounding of magnitudes, taken to both signs.
unfoldable pub by_sign : (ℕ → ℕ → ℕ) → ℤ → ℕ → ℤ
by_sign f (pos n) d = pos (f n d)
by_sign f (negsuc n) d = neg (pos (f (suc n) d))

-- `x.quantize(unit)`
abbrev pub quantize : ℤ → ℕ → ℤ
quantize = by_sign half_even

-- `x.quantize(unit, rounding=ROUND_HALF_UP)`
abbrev pub quantize_half_up : ℤ → ℕ → ℤ
quantize_half_up = by_sign half_up

-- `x.quantize(unit, rounding=ROUND_DOWN)`
abbrev pub quantize_down : ℤ → ℕ → ℤ
quantize_down = by_sign ◌/◌

-- A rounding to the nearest multiple is at most half a unit away.
pub half_even_bounds :
    (n d : ℕ)
    → 0 < d
    → (2 * (half_even n d * d) ≤ 2 * n + d) × (2 * n ≤ 2 * (half_even n d * d) + d)
unfolding half_even
half_even_bounds n d h = grind (arith, div-add-mod n d, mod-lt n h)

pub half_even-multiple : (m d : ℕ) → 0 < d → half_even (m * d) d ≡ m
half_even-multiple m d h = grind (arith, half_even_bounds (m * d) d h)

-- What is at most `m` units rounds to at most `m`.
pub half_even-le : (n m d : ℕ) → 0 < d → n ≤ m * d → half_even n d ≤ m
half_even-le n m d h le = grind (arith, half_even_bounds n d h)

pub half_up_bounds :
    (n d : ℕ) → 0 < d → (2 * (half_up n d * d) ≤ 2 * n + d) × (2 * n ≤ 2 * (half_up n d * d) + d)
unfolding half_up
half_up_bounds n d h = grind (arith, div-add-mod n d, mod-lt n h)
