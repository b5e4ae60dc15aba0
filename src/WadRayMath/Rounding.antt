-- ===== src/WadRayMath/Rounding.antt =====
-- Rounding of the fixed-point operations of test-suites/helpers/utils/wadraymath.ts.
use rasa_lending_platform_sm.Prelude.{ℕ, ◌+◌, ◌*◌, ◌/◌, ◌≤◌, ◌<◌, ◌≡◌, ap, arith}
use rasa_lending_platform_sm.Prelude.Int.{pos, pos_laws, tdiv}
use rasa_lending_platform_sm.Prelude.Result.{ok, quotient}
use rasa_lending_platform_sm.WadRayMath.{
  ray_mul, ray_div, ray, half_ray, percent_mul, percentage_factor, half_percentage, wad_mul, wad,
  half_wad, wad_div, ray_to_wad, wad_to_ray, wad_ray_ratio, percent_div,
}

pub quotient-pos : (a b : ℕ) → 0 < b → quotient (pos a) (pos b) ≡ ok (pos (a / b))
unfolding quotient tdiv
quotient-pos a b h = ground arith

pub ray_mul-pos : (a b : ℕ) → ray_mul (pos a) (pos b) ≡ pos ((half_ray + a * b) / ray)
unfolding ray_mul
ray_mul-pos a b = simp pos_laws

pub ray_div-pos : (a b : ℕ) → 0 < b → ray_div (pos a) (pos b) ≡ ok (pos ((b / 2 + a * ray) / b))
unfolding ray_div
ray_div-pos a b h = simp pos_laws (quotient-pos (b / 2 + a * ray) b h)

pub percent_mul-pos :
    (a b : ℕ) → percent_mul (pos a) (pos b) ≡ pos ((half_percentage + a * b) / percentage_factor)
unfolding percent_mul
percent_mul-pos a b = simp pos_laws

pub wad_mul-pos : (a b : ℕ) → wad_mul (pos a) (pos b) ≡ pos ((half_wad + a * b) / wad)
unfolding wad_mul
wad_mul-pos a b = simp pos_laws

pub wad_div-pos : (a b : ℕ) → 0 < b → wad_div (pos a) (pos b) ≡ ok (pos ((b / 2 + a * wad) / b))
unfolding wad_div
wad_div-pos a b h = simp pos_laws (quotient-pos (b / 2 + a * wad) b h)

pub percent_div-pos :
    (a b : ℕ) → 0 < b → percent_div (pos a) (pos b) ≡ ok (pos ((b / 2 + a * percentage_factor) / b))
unfolding percent_div
percent_div-pos a b h = simp pos_laws (quotient-pos (b / 2 + a * percentage_factor) b h)

pub wad_to_ray-pos : (a : ℕ) → wad_to_ray (pos a) ≡ pos (a * wad_ray_ratio)
unfolding wad_to_ray
wad_to_ray-pos a = simp pos_laws

pub ray_to_wad-pos : (a : ℕ) → ray_to_wad (pos a) ≡ pos ((wad_ray_ratio / 2 + a) / wad_ray_ratio)
unfolding ray_to_wad
ray_to_wad-pos a = simp pos_laws

-- A quotient with half of the divisor added is within half of the divisor of the exact value.
pub half_up : (h n d : ℕ) → 0 < d → (h + n) / d * d ≤ n + h
half_up h n d p = grind arith

pub half_up_lt : (h n d : ℕ) → 0 < d → n + h < (h + n) / d * d + d
half_up_lt h n d p = grind arith

-- The product of two rays that are not negative is the nearest ray, ties upwards: the result times
-- a ray is at most half a ray above the exact product, and less than half a ray below it.
pub ray_mul_nearest :
    (a b : ℕ)
    → (q : ℕ) × (ray_mul (pos a) (pos b) ≡ pos q)
      × (q * ray ≤ a * b + half_ray)
      × (a * b < q * ray + half_ray)
ray_mul_nearest a b = ((half_ray + a * b) / ray, ray_mul-pos a b, omega arith, omega arith)

-- The quotient of two rays, by a divisor above zero, is the nearest ray: the result times the divisor
-- is at most half of the divisor, rounded down, above the exact dividend in rays, and the next larger
-- result would be further above it.
pub ray_div_nearest :
    (a b : ℕ)
    → 0 < b
    → (q : ℕ) × (ray_div (pos a) (pos b) ≡ ok (pos q))
      × (q * b ≤ a * ray + b / 2)
      × (a * ray + b / 2 < q * b + b)
ray_div_nearest a b h = (
  (b / 2 + a * ray) / b,
  ray_div-pos a b h,
  half_up (b / 2) (a * ray) b h,
  half_up_lt (b / 2) (a * ray) b h,
)

-- A wad that is not negative comes back unchanged from its conversion to a ray.
pub ray_to_wad-wad_to_ray : (a : ℕ) → ray_to_wad (wad_to_ray (pos a)) ≡ pos a
ray_to_wad-wad_to_ray a = rw (wad_to_ray-pos, ray_to_wad-pos) (ap pos (omega arith))
