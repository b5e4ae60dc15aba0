-- ===== src/Calculations/User/Balances.antt =====
-- The balances of test-suites/helpers/utils/calculations.ts on fetched data.
use native.Mathlib.Nat.{le_refl, add-zero}
use rasa_lending_platform_sm.Prelude.{
  ℕ, ◌+◌, ◌-◌, ◌*◌, ◌/◌, ◌≤◌, ◌<◌, ◌≡◌, arith, ◌==◌, ◌||◌, if◌then◌else◌, ap,
}
use rasa_lending_platform_sm.Prelude.Int.{pos, +ℤ-pos, -ℤ-pos}
use rasa_lending_platform_sm.Prelude.Result.{ok}
use rasa_lending_platform_sm.WadRayMath.{ray, ray_mul}
use rasa_lending_platform_sm.WadRayMath.Rounding.{ray_mul-pos, ray_div-pos}
use rasa_lending_platform_sm.WadRayMath.RoundTrip.{ray_div-ray_mul}
use rasa_lending_platform_sm.WadRayMath.Order.{multiplied, divided}
use rasa_lending_platform_sm.Calculations.Snapshot.{
  Reserve, Position, fetched_reserve, fetched_user,
}
use rasa_lending_platform_sm.Calculations.Interest.{
  one_year, calc_expected_reserve_normalized_debt, calc_expected_stable_debt_token_balance,
}
use rasa_lending_platform_sm.Calculations.Interest.Closed.{
  binomial_interest, calc_linear_interest-pos, calc_compounded_interest-pos,
}
use rasa_lending_platform_sm.Calculations.Interest.Growth.{grow, ray-le-binomial_interest}
use rasa_lending_platform_sm.Calculations.State.{
  calc_expected_reserve_normalized_income, calc_expected_rs_token_balance,
  calc_expected_scaled_rs_token_balance, calc_expected_variable_debt_token_balance,
}
use rasa_lending_platform_sm.Calculations.Debt.{stable_balance_of}

-- The normalized income and the normalized debt at the time `t`.
abbrev pub income : Reserve → ℕ → ℕ
income r t =
    if r.income_rate == 0
    then r.index
    else multiplied (r.income_rate * (t - r.updated) / one_year + ray) r.index

abbrev pub debt_factor : Reserve → ℕ → ℕ
debt_factor r t =
    if r.variable_rate == 0
    then r.debt_index
    else multiplied (binomial_interest r.variable_rate (t - r.updated)) r.debt_index

pub index-le-income :
    (r : Reserve) (t : ℕ) → (r.index ≤ income r t) × (r.debt_index ≤ debt_factor r t)
index-le-income r t = (
  ground (arith, grow (r.income_rate * (t - r.updated) / one_year + ray) r.index (omega arith)),
  ground (
    arith,
    grow (binomial_interest r.variable_rate (t - r.updated)) r.debt_index
        (ray-le-binomial_interest _ _),
  ),
)

pub rs_token_balance-fetched :
    (r : Reserve) (p : Position) (t : ℕ)
    → r.updated ≤ t
    → calc_expected_rs_token_balance (fetched_reserve r) (fetched_user p) (pos t)
      ≡ ok (ray_mul (pos p.scaled) (pos (income r t)))
unfolding calc_expected_rs_token_balance calc_expected_reserve_normalized_income
rs_token_balance-fetched r p t h =
    rw (calc_linear_interest-pos r.income_rate t r.updated h)
      (rw (ray_mul-pos (r.income_rate * (t - r.updated) / one_year + ray) r.index) (ground arith))

pub variable_balance-fetched :
    (r : Reserve) (p : Position) (t : ℕ)
    → r.updated ≤ t
    → calc_expected_variable_debt_token_balance (fetched_reserve r) (fetched_user p) (pos t)
      ≡ ok (ray_mul (pos p.scaled_debt) (pos (debt_factor r t)))
unfolding calc_expected_variable_debt_token_balance calc_expected_reserve_normalized_debt
variable_balance-fetched r p t h = rw (calc_compounded_interest-pos r.variable_rate t r.updated h) (
    rw (ray_mul-pos (binomial_interest r.variable_rate (t - r.updated)) r.debt_index)
      (ground arith))

-- The user's stable debt at the time `t`.
abbrev pub stable_debt_at : Position → ℕ → ℕ
stable_debt_at p t =
    if p.rate == 0 || t == p.rate_updated || p.rate_updated == 0
    then p.principal
    else multiplied p.principal (binomial_interest p.rate (t - p.rate_updated))

pub stable_balance-fetched :
    (p : Position) (t : ℕ)
    → p.rate_updated ≤ t
    → stable_balance_of (fetched_user p) (pos t) ≡ ok (pos (stable_debt_at p t))
unfolding stable_balance_of calc_expected_stable_debt_token_balance
stable_balance-fetched p t h =
    rw (calc_compounded_interest-pos p.rate t p.rate_updated h)
      (rw (ray_mul-pos p.principal (binomial_interest p.rate (t - p.rate_updated))) (ground arith))

divided-zero : (i : ℕ) → 0 < i → divided 0 i ≡ 0
divided-zero i h = grind arith

-- Scaling back the whole balance leaves nothing.
pub scaled-all :
    (p : Position) (i : ℕ)
    → ray ≤ i
    → calc_expected_scaled_rs_token_balance
        (fetched_user p)
        (pos i)
        (pos 0)
        (ray_mul (pos p.scaled) (pos i))
      ≡ ok (pos 0)
unfolding calc_expected_scaled_rs_token_balance
scaled-all p i h =
    rw (ray_div-pos 0 i (omega arith), ray_div-ray_mul p.scaled i h)
      (rw (divided-zero i (omega arith), +ℤ-pos p.scaled 0, add-zero p.scaled)
        (rw (-ℤ-pos p.scaled p.scaled (le_refl p.scaled))
          (ap (λ (n : ℕ). ok (pos n)) (omega arith))))
