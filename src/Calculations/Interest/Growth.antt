-- ===== src/Calculations/Interest/Growth.antt =====
-- Interest never shrinks what it is charged on: the indexes and the balances of
-- test-suites/helpers/utils/calculations.ts.
use rasa_lending_platform_sm.Prelude.{ℕ, ◌+◌, ◌-◌, ◌*◌, ◌/◌, ◌≤◌, arith}
use rasa_lending_platform_sm.Prelude.Int.{pos, ◌≤ℤ◌}
use rasa_lending_platform_sm.WadRayMath.{ray, half_ray}
use rasa_lending_platform_sm.Calculations.Interest.{calc_linear_interest, calc_compounded_interest}
use rasa_lending_platform_sm.Calculations.Interest.Closed.{
  binomial_interest, calc_linear_interest-pos, calc_compounded_interest-pos, binomial_interest_mono,
}

-- At a rate that is not negative, from a time to one that is no earlier, the compounded interest is at least the linear interest, which is at
-- least one ray.
pub calc_linear_interest-le-calc_compounded_interest :
    (rate now last : ℕ)
    → last ≤ now
    → (pos ray ≤ℤ calc_linear_interest (pos rate) (pos now) (pos last))
      × (calc_linear_interest (pos rate) (pos now) (pos last)
          ≤ℤ calc_compounded_interest (pos rate) (pos now) (pos last))
unfolding binomial_interest
calc_linear_interest-le-calc_compounded_interest rate now last h =
    rw (calc_linear_interest-pos rate now last h, calc_compounded_interest-pos rate now last h)
      (omega arith, omega arith)

-- At a rate that is not negative, from a last update that is no later than now, a later time never
-- brings less compounded interest.
pub calc_compounded_interest_mono :
    (rate last now later : ℕ)
    → last ≤ now
    → now ≤ later
    → calc_compounded_interest (pos rate) (pos now) (pos last)
      ≤ℤ calc_compounded_interest (pos rate) (pos later) (pos last)
calc_compounded_interest_mono rate last now later p q =
    rw
      (
        calc_compounded_interest-pos rate now last p,
        calc_compounded_interest-pos rate later last (omega arith),
      )
      (omega (arith, binomial_interest_mono rate (now - last) (later - last)))

pub ray-le-binomial_interest : (rate t : ℕ) → ray ≤ binomial_interest rate t
unfolding binomial_interest
ray-le-binomial_interest rate t = omega arith

-- A factor of at least one ray does not shrink a number.
pub grow : (f x : ℕ) → ray ≤ f → x ≤ (half_ray + f * x) / ray
grow f x h = grind arith
