-- ===== src/Calculations/Rates/Strategy.antt =====
-- The interest rate strategy of test-suites/helpers/utils/calculations.ts.
use native.Mathlib.Nat.{le_refl}
use rasa_lending_platform_sm.Prelude.{
  ℕ, ◌+◌, ◌-◌, ◌*◌, ◌/◌, ◌≤◌, ◌<◌, ◌≡◌, true, false, arith, ltb, inl, inr, Bool-cases, mul-le-mul,
  String,
}
use rasa_lending_platform_sm.Prelude.Int.{pos, -ℤ-pos, ltb_pos, pos_laws}
use rasa_lending_platform_sm.Prelude.Result.{ok}
use rasa_lending_platform_sm.Types.{InterestRateStrategyParams}
use rasa_lending_platform_sm.WadRayMath.{ray, half_ray}
use rasa_lending_platform_sm.WadRayMath.Rounding.{ray_mul-pos, ray_div-pos, half_up}
use rasa_lending_platform_sm.WadRayMath.Order.{
  divided, multiplied, divided-le-ray, multiplied_le, cancel,
}
use rasa_lending_platform_sm.Calculations.Rates.{usage_rates, add_stable_excess}

-- A strategy whose numbers are not negative.
pub record Strategy : Type 0 where
  pub name : String
  pub optimal : ℕ
  pub base : ℕ
  pub variable_slope1 : ℕ
  pub variable_slope2 : ℕ
  pub stable_slope1 : ℕ
  pub stable_slope2 : ℕ
  pub base_offset : ℕ
  pub excess_offset : ℕ
  pub optimal_stable : ℕ

abbrev pub to_params : Strategy → InterestRateStrategyParams
to_params s = record {
  name = s.name;
  optimal_usage_ratio = pos s.optimal;
  base_variable_borrow_rate = pos s.base;
  variable_rate_slope1 = pos s.variable_slope1;
  variable_rate_slope2 = pos s.variable_slope2;
  stable_rate_slope1 = pos s.stable_slope1;
  stable_rate_slope2 = pos s.stable_slope2;
  base_stable_rate_offset = pos s.base_offset;
  stable_rate_excess_offset = pos s.excess_offset;
  optimal_stable_to_total_debt_ratio = pos s.optimal_stable;
}

-- The optimal ratios leave room on both sides, as the strategy's constructor demands of the upper
-- side; the usage ratio is at least a third.
pub record IsSound (s : Strategy) : Type 0 where
  pub optimal_low : ray < 3 * s.optimal
  pub optimal_high : s.optimal < ray
  pub stable_high : s.optimal_stable < ray

-- Up to the optimal ratio a slope adds at most itself and one for rounding.
slope_low :
    (slope ratio optimal : ℕ)
    → ray < 3 * optimal
    → ratio ≤ optimal
    → divided (multiplied slope ratio) optimal ≤ slope + 1
slope_low slope ratio optimal h k =
    let part : slope * ratio ≤ slope * optimal = mul-le-mul (le_refl slope) k in
    let rounded = half_up (optimal / 2) (multiplied slope ratio * ray) optimal (omega arith) in
    cancel (divided (multiplied slope ratio) optimal) (slope + 1) optimal
      (omega (arith, half_up half_ray (slope * ratio) ray (omega arith)))

-- The rates up to the optimal ratio, and above it.
abbrev low_rate : ℕ → ℕ → ℕ → ℕ → ℕ
low_rate start slope optimal ratio = start + divided (multiplied slope ratio) optimal

abbrev high_rate : ℕ → ℕ → ℕ → ℕ → ℕ → ℕ
high_rate start slope1 slope2 optimal ratio =
    start + slope1 + multiplied slope2 (divided (ratio - optimal) (ray - optimal))

usage_rates-low :
    (s : Strategy) (market ratio : ℕ)
    → 0 < s.optimal
    → ltb s.optimal ratio ≡ false
    → usage_rates (to_params s) (pos market) (pos ratio)
      ≡ ok (
        pos (low_rate market s.stable_slope1 s.optimal ratio),
        pos (low_rate s.base s.variable_slope1 s.optimal ratio),
      )
unfolding usage_rates
usage_rates-low s market ratio p e =
    simp (ltb_pos, e, ray_mul-pos)
      (rw
        (
          ray_div-pos (multiplied s.stable_slope1 ratio) s.optimal p,
          ray_div-pos (multiplied s.variable_slope1 ratio) s.optimal p,
        )
        (simp pos_laws))

usage_rates-high :
    (s : Strategy) (market ratio : ℕ)
    → s.optimal < ray
    → ltb s.optimal ratio ≡ true
    → usage_rates (to_params s) (pos market) (pos ratio)
      ≡ ok (
        pos (high_rate market s.stable_slope1 s.stable_slope2 s.optimal ratio),
        pos (high_rate s.base s.variable_slope1 s.variable_slope2 s.optimal ratio),
      )
unfolding usage_rates
usage_rates-high s market ratio p e =
    simp (ltb_pos, e)
      (rw
        (
          -ℤ-pos ratio s.optimal (ground arith),
          -ℤ-pos ray s.optimal (omega arith),
          ray_div-pos (ratio - s.optimal) (ray - s.optimal) (omega arith),
        )
        (simp (pos_laws, ray_mul-pos)))

-- For a sound strategy and a usage ratio of at most one ray the rates are computed without a throw;
-- each lies between its base and its base plus both slopes, plus one for rounding.
pub usage_rates_within :
    (s : Strategy) (market ratio : ℕ)
    → IsSound s
    → ratio ≤ ray
    → (stable variable : ℕ) × (usage_rates (to_params s) (pos market) (pos ratio)
        ≡ ok (pos stable, pos variable))
      × (market ≤ stable)
      × (stable ≤ market + s.stable_slope1 + s.stable_slope2 + 1)
      × (s.base ≤ variable)
      × (variable ≤ s.base + s.variable_slope1 + s.variable_slope2 + 1)
usage_rates_within s market ratio sound h = elim (Bool-cases (ltb s.optimal ratio)) [
  | inl e ↦
      let excess =
        divided-le-ray (ratio - s.optimal) (ray - s.optimal) (omega (arith, sound.optimal_high))
          (omega arith) in
      (
        high_rate market s.stable_slope1 s.stable_slope2 s.optimal ratio,
        high_rate s.base s.variable_slope1 s.variable_slope2 s.optimal ratio,
        usage_rates-high s market ratio sound.optimal_high e,
        omega arith,
        omega (
          arith,
          multiplied_le s.stable_slope2 (divided (ratio - s.optimal) (ray - s.optimal)) excess,
        ),
        omega arith,
        omega (
          arith,
          multiplied_le s.variable_slope2 (divided (ratio - s.optimal) (ray - s.optimal)) excess,
        ),
      )
  | inr e ↦
      let low : ratio ≤ s.optimal = ground arith in
      (
        low_rate market s.stable_slope1 s.optimal ratio,
        low_rate s.base s.variable_slope1 s.optimal ratio,
        usage_rates-low s market ratio (omega (arith, sound.optimal_low)) e,
        omega arith,
        omega (arith, slope_low s.stable_slope1 ratio s.optimal sound.optimal_low low),
        omega arith,
        omega (arith, slope_low s.variable_slope1 ratio s.optimal sound.optimal_low low),
      )
]

-- The excess of stable debt adds at most the offset.
pub add_stable_excess_within :
    (s : Strategy) (ratio rate : ℕ)
    → IsSound s
    → ratio ≤ ray
    → (q : ℕ) × (add_stable_excess (to_params s) (pos ratio) (pos rate) ≡ ok (pos q))
      × (rate ≤ q)
      × (q ≤ rate + s.excess_offset)
unfolding add_stable_excess
add_stable_excess_within s ratio rate sound h = elim (Bool-cases (ltb s.optimal_stable ratio)) [
  | inl e ↦
      let part = divided (ratio - s.optimal_stable) (ray - s.optimal_stable) in
      let room : 0 < ray - s.optimal_stable = omega (arith, sound.stable_high) in
      (
        rate + multiplied s.excess_offset part,
        simp (ltb_pos, e)
            (rw
              (
                -ℤ-pos ratio s.optimal_stable (ground arith),
                -ℤ-pos ray s.optimal_stable (omega (arith, sound.stable_high)),
                ray_div-pos (ratio - s.optimal_stable) (ray - s.optimal_stable) room,
              )
              (simp (pos_laws, ray_mul-pos))),
        omega arith,
        omega (
          arith,
          multiplied_le s.excess_offset part (
              divided-le-ray (ratio - s.optimal_stable) (ray - s.optimal_stable) room
                (omega arith)),
        ),
      )
  | inr e ↦ (rate, simp (ltb_pos, e), omega arith, omega arith)
]
