-- ===== src/Contracts/WadRayMath/Agreement.antt =====
-- The fixed-point arithmetic of test-suites/helpers/utils/wadraymath.ts against that of
-- contracts/protocol/libraries/math.
use rasa_lending_platform_sm.Prelude.{
  ℕ, ◌+◌, ◌-◌, ◌*◌, ◌/◌, ◌≤◌, ◌<◌, ◌≡◌, inl, inr, Option, none, some, arith, leb, ◌==◌,
  if◌then◌else◌, Bool-cases,
}
use rasa_lending_platform_sm.Prelude.Int.{ℤ, pos, pos_part}
use rasa_lending_platform_sm.Prelude.Result.{Result, ok, err, quotient}
use rasa_lending_platform_sm.WadRayMath
use rasa_lending_platform_sm.WadRayMath.{
  ray, half_ray, wad, half_wad, wad_ray_ratio, percentage_factor, half_percentage,
}
use rasa_lending_platform_sm.WadRayMath.Rounding.{
  ray_mul-pos, ray_div-pos, ray_to_wad-pos, wad_to_ray-pos, wad_mul-pos, percent_mul-pos,
}
use rasa_lending_platform_sm.Contracts.WadRayMath.{
  word, max_word, ray_mul, ray_div, ray_to_wad, wad_to_ray, percent_mul, wad_mul,
}

-- What a contract gives: the value where its working fits a word, and a revert otherwise.
abbrev pub within_word : ℕ → ℤ → Option ℕ
within_word working value = if leb working max_word then some (pos_part value) else none

-- The same for a call that may throw, which the contract answers by a revert.
abbrev pub checked_word : ℕ → Result ℤ → Option ℕ
checked_word working (ok value) = within_word working value
checked_word working (err e) = none

fits : (x b c : ℕ) → 0 < b → x ≤ c / b → x * b ≤ c
fits x b c p h = grind arith

overflows : (x b c : ℕ) → 0 < b → c / b < x → c < x * b
overflows x b c p h = grind arith

-- The contract's `rayMul` returns exactly what the tests' `rayMul` does if the product and half a
-- ray fit a word, and reverts otherwise.
pub ray_mul_agrees :
    (a b : ℕ) → ray_mul a b ≡ within_word (a * b + half_ray) (WadRayMath.ray_mul (pos a) (pos b))
unfolding ray_mul
ray_mul_agrees a b =
    rw (ray_mul-pos a b)
      (ground (arith, fits a b (max_word - half_ray), overflows a b (max_word - half_ray)))

-- The contract's `wadMul` returns exactly what the tests' `wadMul` does if the product and half a
-- wad fit a word, and reverts otherwise.
pub wad_mul_agrees :
    (a b : ℕ) → wad_mul a b ≡ within_word (a * b + half_wad) (WadRayMath.wad_mul (pos a) (pos b))
unfolding wad_mul
wad_mul_agrees a b =
    rw (wad_mul-pos a b)
      (ground (arith, fits a b (max_word - half_wad), overflows a b (max_word - half_wad)))

-- The contract's `percentMul` returns exactly what the tests' `percentMul` does if the product and
-- half a percentage factor fit a word, and reverts otherwise.
pub percent_mul_agrees :
    (a b : ℕ)
    → percent_mul a b
      ≡ within_word (a * b + half_percentage) (WadRayMath.percent_mul (pos a) (pos b))
unfolding percent_mul
percent_mul_agrees a b = rw (percent_mul-pos a b) (
    ground
      (arith, fits a b (max_word - half_percentage), overflows a b (max_word - half_percentage)))

-- On a divisor that is a word, the contract's `rayDiv` returns exactly what the tests' `rayDiv` does
-- if the dividend in rays and half the divisor fit a word; otherwise it reverts, and it reverts too
-- where the tests' throws.
pub ray_div_agrees :
    (a b : ℕ)
    → b < word
    → ray_div a b ≡ checked_word (a * ray + b / 2) (WadRayMath.ray_div (pos a) (pos b))
unfolding ray_div
ray_div_agrees a b h = elim (Bool-cases (b == 0)) [
  | inl e ↦ unfold WadRayMath.ray_div quotient in (ground arith)
  | inr e ↦ rw (ray_div-pos a b (ground arith)) (ground arith)
]

-- On a number that is a word, the contract's conversions between wads and rays return what the tests' do: to a wad always, to a
-- ray if the result fits a word, with a revert otherwise.
pub conversions_agree :
    (a : ℕ)
    → a < word
    → (pos (ray_to_wad a) ≡ WadRayMath.ray_to_wad (pos a))
      × (wad_to_ray a ≡ within_word (a * wad_ray_ratio) (WadRayMath.wad_to_ray (pos a)))
unfolding ray_to_wad wad_to_ray
conversions_agree a h = (rw (ray_to_wad-pos a) (ground arith), rw (wad_to_ray-pos a) (ground arith))
