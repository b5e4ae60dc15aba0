-- ===== src/Calculations/Interest/Closed.antt =====
-- The interest functions of test-suites/helpers/utils/calculations.ts in closed form, at rates and
-- times that are not negative.
use native.Mathlib.Nat.{le_refl}
use rasa_lending_platform_sm.Prelude.{
  ℕ, zero, suc, ◌+◌, ◌-◌, ◌*◌, ◌/◌, ◌≤◌, ◌<◌, ◌≡◌, ap, arith, if◌then◌else◌, mul-le-mul,
}
use rasa_lending_platform_sm.Prelude.Int.{pos, pos_laws, -ℤ-pos, ◌-ℤ◌, ltb_ℤ}
use rasa_lending_platform_sm.WadRayMath.{ray, half_ray}
use rasa_lending_platform_sm.WadRayMath.Rounding.{ray_mul-pos}
use rasa_lending_platform_sm.Calculations.Interest.{
  one_year, calc_linear_interest, compound_over, calc_compounded_interest,
}

-- rate ^ 2 / year ^ 2 and rate ^ 3 / year ^ 3, in rays.
abbrev pub power_two : ℕ → ℕ
power_two rate = (half_ray + rate * rate) / ray / (one_year * one_year)

abbrev pub power_three : ℕ → ℕ
power_three rate = (half_ray + power_two rate * rate) / ray / one_year

-- The first four terms of the binomial series of (1 + rate / year) ^ time.
unfoldable pub binomial_interest : ℕ → ℕ → ℕ
binomial_interest rate time =
    ray
    + rate * time / one_year
    + time * (time - 1) * power_two rate / 2
    + time * (time - 1) * (time - 2) * power_three rate / 6

pub calc_linear_interest-pos :
    (rate now last : ℕ)
    → last ≤ now
    → calc_linear_interest (pos rate) (pos now) (pos last)
      ≡ pos (rate * (now - last) / one_year + ray)
unfolding calc_linear_interest
calc_linear_interest-pos rate now last h = rw (-ℤ-pos now last h) (simp pos_laws)

minus_two : (t : ℕ) → (if ltb_ℤ (pos 2) (pos t) then pos t -ℤ pos 2 else pos 0) ≡ pos (t - 2)
unfolding ◌-ℤ◌
minus_two t = ground arith

compound_over-pos : (rate t : ℕ) → compound_over (pos rate) (pos t) ≡ pos (binomial_interest rate t)
unfolding compound_over binomial_interest
compound_over-pos rate zero = ap pos (omega arith)
compound_over-pos rate (suc t) =
    rw (minus_two (suc t), -ℤ-pos (suc t) 1 (omega arith))
      (simp (pos_laws, ray_mul-pos) (ground arith))

-- At a rate and a time that are not negative the compounded interest is the start of the binomial
-- series, with each power of the rate rounded as the code rounds it.
pub calc_compounded_interest-pos :
    (rate now last : ℕ)
    → last ≤ now
    → calc_compounded_interest (pos rate) (pos now) (pos last)
      ≡ pos (binomial_interest rate (now - last))
unfolding calc_compounded_interest
calc_compounded_interest-pos rate now last h =
    rw (-ℤ-pos now last h) (compound_over-pos rate (now - last))

mul-div_mono : (a b c d : ℕ) → 0 < d → a ≤ b → a * c / d ≤ b * c / d
mul-div_mono a b c d p h = let q : a * c ≤ b * c = mul-le-mul h (le_refl c) in grind arith

-- More time never brings less interest.
pub binomial_interest_mono :
    (rate s t : ℕ) → s ≤ t → binomial_interest rate s ≤ binomial_interest rate t
unfolding binomial_interest
binomial_interest_mono rate s t h =
    let one_less : s - 1 ≤ t - 1 = omega arith in
    let two_less : s - 2 ≤ t - 2 = omega arith in
    let pairs : s * (s - 1) ≤ t * (t - 1) = mul-le-mul h one_less in
    let triples : s * (s - 1) * (s - 2) ≤ t * (t - 1) * (t - 2) = mul-le-mul pairs two_less in
    omega (
      arith,
      mul-div_mono s t rate one_year (omega arith) h,
      mul-div_mono _ _ (power_two rate) 2 (omega arith) pairs,
      mul-div_mono _ _ (power_three rate) 6 (omega arith) triples,
    )
