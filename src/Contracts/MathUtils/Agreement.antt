-- ===== src/Contracts/MathUtils/Agreement.antt =====
-- The interest of test-suites/helpers/utils/calculations.ts against that of
-- contracts/protocol/libraries/math/MathUtils.sol.
use rasa_lending_platform_sm.Prelude.{
  ℕ, ◌+◌, ◌-◌, ◌*◌, ◌/◌, ◌^◌, ◌≤◌, ◌<◌, ◌≡◌, ◌∙◌, ap, some, arith, ltb, if◌then◌else◌, mul-le-mul,
}
use rasa_lending_platform_sm.Prelude.Int.{pos}
use rasa_lending_platform_sm.WadRayMath.{ray, half_ray}
use rasa_lending_platform_sm.WadRayMath.Rounding.{ray_mul-pos}
use rasa_lending_platform_sm.Contracts.WadRayMath.{max_word, ray_mul}
use rasa_lending_platform_sm.Contracts.WadRayMath.Agreement.{ray_mul_agrees}
use rasa_lending_platform_sm.Calculations.Interest.{
  one_year, calc_linear_interest, calc_compounded_interest,
}
use rasa_lending_platform_sm.Calculations.Interest.Closed.{
  power_two, power_three, binomial_interest, calc_compounded_interest-pos, calc_linear_interest-pos,
}
use rasa_lending_platform_sm.Contracts.MathUtils.{
  checked_add, checked_sub, checked_mul, compound_terms, calculate_linear_interest,
  calculate_compounded_interest,
}

pub ray_mul-fits :
    (a b : ℕ) → a * b + half_ray ≤ max_word → ray_mul a b ≡ some ((half_ray + a * b) / ray)
ray_mul-fits a b h = rw (ray_mul_agrees a b, ray_mul-pos a b) (ground arith)

pub checked_sub-fits : (a b : ℕ) → b ≤ a → checked_sub a b ≡ some (a - b)
unfolding checked_sub
checked_sub-fits a b h = ground arith

checked_mul-fits : (a b : ℕ) → a * b ≤ max_word → checked_mul a b ≡ some (a * b)
unfolding checked_mul
checked_mul-fits a b h = ground arith

pub checked_add-fits : (a b : ℕ) → a + b ≤ max_word → checked_add a b ≡ some (a + b)
unfolding checked_add
checked_add-fits a b h = ground arith

-- What keeps the working of an interest below a word: a rate of 128 bits and a time of 40.
record Bounds (rate t : ℕ) : Type 0 where
  squared : rate * rate + half_ray ≤ max_word
  cubed : power_two rate * rate + half_ray ≤ max_word
  pairs : t * (t - 1) ≤ 2 ^ 80
  second : t * (t - 1) * power_two rate ≤ 2 ^ 200
  triples : t * (t - 1) * (t - 2) ≤ 2 ^ 120
  third : t * (t - 1) * (t - 2) * power_three rate ≤ 2 ^ 254
  linear : rate * t ≤ 2 ^ 168

bounded : (a b c d : ℕ) → a ≤ c → b ≤ d → a * b ≤ c * d
bounded a b c d h k = mul-le-mul h k

rate-Bounds : (rate t : ℕ) → rate < 2 ^ 128 → t < 2 ^ 40 → Bounds rate t
rate-Bounds rate t p q =
    let rate_le : rate ≤ 2 ^ 128 - 1 = omega arith in
    let t_le : t ≤ 2 ^ 40 = omega arith in
    let square = bounded rate rate (2 ^ 128 - 1) (2 ^ 128 - 1) rate_le rate_le in
    let two : power_two rate ≤ 2 ^ 117 = omega arith in
    let cube = bounded (power_two rate) rate (2 ^ 117) (2 ^ 128 - 1) two rate_le in
    let three : power_three rate ≤ 2 ^ 134 = omega arith in
    let pair = bounded t (t - 1) (2 ^ 40) (2 ^ 40) t_le (omega arith) in
    let triple = bounded (t * (t - 1)) (t - 2) (2 ^ 80) (2 ^ 40) pair (omega arith) in
    record {
      squared = omega arith;
      cubed = omega arith;
      pairs = pair;
      second = omega (arith, bounded (t * (t - 1)) (power_two rate) (2 ^ 80) (2 ^ 117) pair two);
      triples = triple;
      third = bounded (t * (t - 1) * (t - 2)) (power_three rate) (2 ^ 120) (2 ^ 134) triple three;
      linear = bounded rate t (2 ^ 128) (2 ^ 40) (omega arith) t_le;
    }

minus_two : (t : ℕ) → (if ltb 2 t then t - 2 else 0) ≡ t - 2
minus_two t = ground arith

compound_terms-fits :
    (rate t : ℕ) → Bounds rate t → compound_terms rate t ≡ some (binomial_interest rate t)
unfolding compound_terms binomial_interest
compound_terms-fits rate t b =
    rw
      (
        ray_mul-fits rate rate b.squared,
        ray_mul-fits (power_two rate) rate b.cubed,
        minus_two t,
        checked_mul-fits t (t - 1) (omega arith),
        checked_mul-fits (t * (t - 1)) (power_two rate) (omega arith),
        checked_mul-fits (t * (t - 1)) (t - 2) (omega arith),
        checked_mul-fits (t * (t - 1) * (t - 2)) (power_three rate) (omega arith),
        checked_mul-fits rate t (omega arith),
      )
      (rw (
        checked_add-fits ray (rate * t / one_year) (omega arith),
        checked_add-fits (ray + rate * t / one_year) (t * (t - 1) * power_two rate / 2)
            (omega arith),
        checked_add-fits (ray + rate * t / one_year + t * (t - 1) * power_two rate / 2)
            (t * (t - 1) * (t - 2) * power_three rate / 6) (omega arith),
      ))

binomial_interest-zero : (rate : ℕ) → binomial_interest rate 0 ≡ ray
unfolding binomial_interest
binomial_interest-zero rate = omega arith

-- At a rate of at most 128 bits and times of at most 40 bits, the last update no later than now, the
-- contract's linear interest never reverts, and it is the interest that the tests compute.
pub calculate_linear_interest_agrees :
    (rate last now : ℕ)
    → rate < 2 ^ 128
    → now < 2 ^ 40
    → last ≤ now
    → (v : ℕ) × (calculate_linear_interest rate last now ≡ some v)
      × (calc_linear_interest (pos rate) (pos now) (pos last) ≡ pos v)
unfolding calculate_linear_interest
calculate_linear_interest_agrees rate last now p q h =
    let fits = bounded rate (now - last) (2 ^ 128) (2 ^ 40) (omega arith) (omega arith) in
    (
      ray + rate * (now - last) / one_year,
      rw (
        checked_sub-fits now last h,
        checked_mul-fits rate (now - last) (omega arith),
        checked_add-fits ray (rate * (now - last) / one_year) (omega arith),
      ),
      calc_linear_interest-pos rate now last h ∙ ap pos (omega arith),
    )

-- At a rate of at most 128 bits and times of at most 40 bits, the last update no later than
-- now, the contract's compounded interest never reverts, and it is the interest that the tests compute.
pub calculate_compounded_interest_agrees :
    (rate last now : ℕ)
    → rate < 2 ^ 128
    → now < 2 ^ 40
    → last ≤ now
    → (v : ℕ) × (calculate_compounded_interest rate last now ≡ some v)
      × (calc_compounded_interest (pos rate) (pos now) (pos last) ≡ pos v)
unfolding calculate_compounded_interest checked_sub
calculate_compounded_interest_agrees rate last now p q h = (
  binomial_interest rate (now - last),
  ground (
    arith,
    binomial_interest-zero rate,
    compound_terms-fits rate (now - last) (rate-Bounds rate (now - last) p (omega arith)),
  ),
  calc_compounded_interest-pos rate now last h,
)
