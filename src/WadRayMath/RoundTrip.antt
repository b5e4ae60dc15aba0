-- ===== src/WadRayMath/RoundTrip.antt =====
-- A scaled balance survives the way to an actual balance and back.
use native.Mathlib.Decide.{dec_lt}
use native.Mathlib.Nat.{div-eq_of_lt-le}
use rasa_lending_platform_sm.Prelude.{ℕ, ◌+◌, ◌*◌, ◌/◌, ◌≤◌, ◌<◌, ◌≡◌, ap, arith}
use rasa_lending_platform_sm.Prelude.Int.{pos}
use rasa_lending_platform_sm.Prelude.Result.{ok}
use rasa_lending_platform_sm.WadRayMath.{ray_mul, ray_div, ray, half_ray}
use rasa_lending_platform_sm.WadRayMath.Rounding.{ray_div-pos, ray_mul_nearest}

quotient_unique : (n m k : ℕ) → k * n ≤ m → m < k * n + n → m / n ≡ k
quotient_unique n m k lo hi = div-eq_of_lt-le n lo (grind arith)

unscale :
    (s i q : ℕ)
    → ray ≤ i
    → q * ray ≤ s * i + half_ray
    → s * i < q * ray + half_ray
    → (i / 2 + q * ray) / i ≡ s
unscale s i q h lo hi = elim (dec_lt ray i) [
  | yes p ↦ quotient_unique i (i / 2 + q * ray) s (omega arith) (omega arith)
  | no p ↦
      let e : i ≡ ray = omega arith in
      let product : s * i ≡ s * ray = ap (λ (t : ℕ). s * t) e in
      quotient_unique i (i / 2 + q * ray) s (omega arith) (omega arith)
]

-- At an index of at least one ray, a scaled balance that is turned into an actual balance and
-- back is unchanged.
pub ray_div-ray_mul : (s i : ℕ) → ray ≤ i → ray_div (ray_mul (pos s) (pos i)) (pos i) ≡ ok (pos s)
ray_div-ray_mul s i h =
    let (q, e, lo, hi) = ray_mul_nearest s i in
    rw (e, ray_div-pos q i (omega arith), unscale s i q h lo hi)
