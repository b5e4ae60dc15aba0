-- ===== src/WadRayMath/Order.antt =====
-- Order of the rounded quotients of test-suites/helpers/utils/wadraymath.ts.
use native.Mathlib.Nat.{le_refl}
use rasa_lending_platform_sm.Prelude.{ℕ, ◌+◌, ◌*◌, ◌/◌, ◌≤◌, ◌<◌, arith, mul-le-mul}
use rasa_lending_platform_sm.WadRayMath.{ray, half_ray}
use rasa_lending_platform_sm.WadRayMath.Rounding.{half_up, half_up_lt}

-- The results of `rayDiv` and `rayMul` at numbers that are not negative.
abbrev pub divided : ℕ → ℕ → ℕ
divided x d = (d / 2 + x * ray) / d

abbrev pub multiplied : ℕ → ℕ → ℕ
multiplied a b = (half_ray + a * b) / ray

below_next : (x d : ℕ) → 0 < d → 2 * (x * ray) < (2 * divided x d + 1) * d
below_next x d p = omega (arith, half_up_lt (d / 2) (x * ray) d p)

above_last : (x d : ℕ) → 0 < d → 2 * (divided x d * d) ≤ 2 * (x * ray) + d
above_last x d p = omega (arith, half_up (d / 2) (x * ray) d p)

squeeze : (p q c d n : ℕ) → c ≤ d → n < (2 * p + 1) * c → 2 * (q * d) ≤ n + d → q ≤ p
squeeze p q c d n h lt le = grind (arith, mul-le-mul)

-- A larger divisor gives no larger result.
pub divided_anti : (x c d : ℕ) → 0 < c → c ≤ d → divided x d ≤ divided x c
divided_anti x c d p h =
    squeeze (divided x c) (divided x d) c d (2 * (x * ray)) h (below_next x c p)
      (above_last x d (omega arith))

pub cancel : (q n d : ℕ) → q * d < (n + 1) * d → q ≤ n
cancel q n d h = grind arith

-- A part of the whole is at most one ray.
pub divided-le-ray : (x d : ℕ) → 0 < d → x ≤ d → divided x d ≤ ray
divided-le-ray x d p h = cancel (divided x d) ray d (omega (arith, half_up (d / 2) (x * ray) d p))

-- A share of at most one ray does not enlarge a number.
pub multiplied_le : (a b : ℕ) → b ≤ ray → multiplied a b ≤ a
multiplied_le a b h = let part : a * b ≤ a * ray = mul-le-mul (le_refl a) h in omega arith
