-- ===== src/Calculations/Rates/Total.antt =====
-- `calcExpectedInterestRates` of test-suites/helpers/utils/calculations.ts, as a whole.
use native.Mathlib.Nat.{le_refl}
use rasa_lending_platform_sm.Prelude.{
  ℕ, ◌+◌, ◌-◌, ◌*◌, ◌/◌, ◌≤◌, ◌≡◌, arith, if◌then◌else◌, ltb, inl, inr, Bool-cases, String, some,
  mul-le-mul,
}
use rasa_lending_platform_sm.Prelude.Int.{pos, +ℤ-pos, -ℤ-pos, ltb_ℤ}
use rasa_lending_platform_sm.Prelude.Result.{ok}
use rasa_lending_platform_sm.Types.{SymbolMap, ReserveParams}
use rasa_lending_platform_sm.WadRayMath.{ray, ray_div, percentage_factor, half_percentage}
use rasa_lending_platform_sm.WadRayMath.Rounding.{ray_mul-pos, ray_div-pos, percent_mul-pos}
use rasa_lending_platform_sm.WadRayMath.Order.{divided, multiplied, divided-le-ray, multiplied_le}
use rasa_lending_platform_sm.Calculations.Rates.{
  find_params, calc_expected_interest_rates, calc_expected_overall_borrow_rate,
}
use rasa_lending_platform_sm.Calculations.Rates.Usage.{
  usage, usage_order, calc_expected_usage_ratios-pos,
}
use rasa_lending_platform_sm.Calculations.Rates.Average.{
  overall, calc_expected_overall_borrow_rate-pos,
}
use rasa_lending_platform_sm.Calculations.Rates.Strategy.{
  Strategy, to_params, IsSound, usage_rates_within, add_stable_excess_within,
}

-- The configuration lists a symbol, with a sound strategy and a reserve factor of at most 100%.
pub record Listing (reserves_params : SymbolMap ReserveParams) (symbol : String) : Type 0 where
  pub params : ReserveParams
  pub strategy : Strategy
  pub factor : ℕ
  pub found : find_params symbol reserves_params ≡ some params
  pub strategy_eq : params.strategy ≡ to_params strategy
  pub factor_eq : params.reserve_factor ≡ pos factor
  pub sound : IsSound strategy
  pub factor_le : factor ≤ percentage_factor

stable_share : ℕ → ℕ → ℕ
stable_share s v = if ltb 0 s then divided s (s + v) else 0

stable_share-pos :
    (s v : ℕ)
    → (if ltb_ℤ (pos 0) (pos s) then ray_div (pos s) (pos (s + v)) else ok (pos 0))
      ≡ ok (pos (stable_share s v))
unfolding stable_share
stable_share-pos s v = elim (Bool-cases (ltb 0 s)) [
  | inl e ↦ rw (ray_div-pos s (s + v) (ground arith)) (ground arith)
  | inr e ↦ ground arith
]

stable_share-le : (s v : ℕ) → stable_share s v ≤ ray
unfolding stable_share
stable_share-le s v = elim (Bool-cases (ltb 0 s)) [
  | inl e ↦ rw e (divided-le-ray s (s + v) (ground arith) (omega arith))
  | inr e ↦ rw e (omega arith)
]

share_le : (n f : ℕ) → f ≤ percentage_factor → (half_percentage + n * f) / percentage_factor ≤ n
share_le n f h = let part : n * f ≤ n * percentage_factor = mul-le-mul (le_refl n) h in omega arith

-- For a symbol that is listed with a sound strategy and a reserve factor of at most 100%, and amounts
-- that are not negative, with a total that is at least what is available, the three rates are computed without a throw. The variable rate lies between its base
-- and its base plus both slopes, plus one for rounding; the stable rate is at least the market's; and
-- the liquidity rate is at most the overall rate that borrowers pay.
pub calc_expected_interest_rates_total :
    (reserves_params : SymbolMap ReserveParams) (symbol : String)
    (l : Listing reserves_params symbol) (market s v average a u : ℕ)
    → (liquidity stable variable paid : ℕ) × (calc_expected_interest_rates reserves_params symbol
          (pos market)
          (pos s)
          (pos v)
          (pos average)
          (pos a)
          (pos (a + u))
        ≡ ok (pos liquidity, pos stable, pos variable))
      × (calc_expected_overall_borrow_rate (pos s) (pos v) (pos variable) (pos average)
          ≡ ok (pos paid))
      × (l.strategy.base ≤ variable)
      × (variable ≤ l.strategy.base + l.strategy.variable_slope1 + l.strategy.variable_slope2 + 1)
      × (market ≤ stable)
      × (liquidity ≤ paid)
unfolding calc_expected_interest_rates
calc_expected_interest_rates_total reserves_params symbol l market s v average a u =
    let (order, top) = usage_order (s + v) a u in
    let supply : ℕ = usage (s + v) (a + u) in
    let (before, variable, priced, low, high, base_le, le_top) =
      usage_rates_within l.strategy market (usage (s + v) a) l.sound top in
    let (stable, excess, stable_le, stable_top) =
      add_stable_excess_within l.strategy (stable_share s v) before l.sound (stable_share-le s v) in
    let paid : ℕ = overall s v variable average in
    let pay = calc_expected_overall_borrow_rate-pos s v variable average in
    let share : ℕ = percentage_factor - l.factor in
    let earned : ℕ = multiplied paid supply in
    (
      (half_percentage + earned * share) / percentage_factor,
      stable,
      variable,
      paid,
      rw (l.found, calc_expected_usage_ratios-pos s v a u, +ℤ-pos s v, stable_share-pos s v)
          (rw (l.strategy_eq, priced, excess, pay, l.factor_eq)
            (rw (-ℤ-pos percentage_factor l.factor l.factor_le)
              (rw (ray_mul-pos paid supply, percent_mul-pos earned share)))),
      pay,
      base_le,
      le_top,
      omega arith,
      omega (arith, share_le earned share (omega arith), multiplied_le paid supply (omega arith)),
    )
