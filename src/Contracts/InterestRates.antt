-- ===== src/Contracts/InterestRates.antt =====
-- contracts/protocol/pool/DefaultReserveInterestRateStrategy.sol: the rates of a reserve, in words. The
-- balance of the RSToken in the underlying asset is an argument.
pub mod Calls
pub mod Stages
pub mod Overall
pub mod Ratios
pub mod Agreement
pub mod Examples
use mathlib.Core.Option
use rasa_lending_platform_sm.Prelude.{ℕ, ◌-◌, Option, none, some, ltb, ◌==◌, if◌then◌else◌}
use rasa_lending_platform_sm.WadRayMath.{ray, percentage_factor}
use rasa_lending_platform_sm.Contracts.WadRayMath.{ray_mul, ray_div, wad_to_ray, percent_mul}
use rasa_lending_platform_sm.Contracts.MathUtils.{checked_add, checked_sub, ◌>>=◌}

-- The immutable variables. The constructor sets the two excesses to what is left of a ray.
pub record Strategy : Type 0 where
  pub optimal_usage_ratio : ℕ
  pub optimal_stable_to_total_debt_ratio : ℕ
  pub base_variable_borrow_rate : ℕ
  pub variable_rate_slope1 : ℕ
  pub variable_rate_slope2 : ℕ
  pub stable_rate_slope1 : ℕ
  pub stable_rate_slope2 : ℕ
  pub base_stable_rate_offset : ℕ
  pub stable_rate_excess_offset : ℕ

-- `CalculateInterestRatesParams`, with the balance in place of the two addresses.
pub record Params : Type 0 where
  pub unbacked : ℕ
  pub liquidity_added : ℕ
  pub liquidity_taken : ℕ
  pub total_stable_debt : ℕ
  pub total_variable_debt : ℕ
  pub average_stable_borrow_rate : ℕ
  pub reserve_factor : ℕ
  pub balance : ℕ

unfoldable pub get_base_stable_borrow_rate : Strategy → Option ℕ
get_base_stable_borrow_rate strategy =
    checked_add strategy.variable_rate_slope1 strategy.base_stable_rate_offset

-- The share of stable debt, and the usage ratios of borrowing and of supply: all zero without debt.
unfoldable pub get_ratios : Params → ℕ → Option (ℕ × ℕ × ℕ)
get_ratios params total = if total == 0 then some (0, 0, 0) else (do
  share ← ray_div params.total_stable_debt total
  gross ← checked_add params.balance params.liquidity_added
  available ← checked_sub gross params.liquidity_taken
  with_debt ← checked_add available total
  borrow_ratio ← ray_div total with_debt
  with_unbacked ← checked_add with_debt params.unbacked
  supply_ratio ← ray_div total with_unbacked
  some (share, borrow_ratio, supply_ratio))

-- `rate += slope1 + slope2.rayMul(excess)`, above the optimal ratio.
unfoldable pub rate_above : ℕ → ℕ → ℕ → ℕ → Option ℕ
rate_above rate slope1 slope2 excess = do
  part ← ray_mul slope2 excess
  step ← checked_add slope1 part
  checked_add rate step

-- `rate += slope1.rayMul(ratio).rayDiv(optimal)`, up to the optimal ratio.
unfoldable pub rate_below : ℕ → ℕ → ℕ → ℕ → Option ℕ
rate_below rate slope1 ratio optimal = do
  part ← ray_mul slope1 ratio
  step ← ray_div part optimal
  checked_add rate step

-- The stable and the variable rate, before the excess of stable debt.
unfoldable pub add_slopes : Strategy → ℕ → ℕ → Option (ℕ × ℕ)
add_slopes strategy base_stable borrow_ratio =
    if ltb strategy.optimal_usage_ratio borrow_ratio
    then (do
      over ← checked_sub borrow_ratio strategy.optimal_usage_ratio
      excess ← ray_div over (ray - strategy.optimal_usage_ratio)
      stable_rate ←
          rate_above base_stable strategy.stable_rate_slope1 strategy.stable_rate_slope2 excess
      variable_rate ←
          rate_above strategy.base_variable_borrow_rate strategy.variable_rate_slope1
            strategy.variable_rate_slope2 excess
      some (stable_rate, variable_rate))
    else (do
      stable_rate ←
          rate_below base_stable strategy.stable_rate_slope1 borrow_ratio
            strategy.optimal_usage_ratio
      variable_rate ←
          rate_below strategy.base_variable_borrow_rate strategy.variable_rate_slope1 borrow_ratio
            strategy.optimal_usage_ratio
      some (stable_rate, variable_rate))

unfoldable pub add_excess_offset : Strategy → ℕ → ℕ → Option ℕ
add_excess_offset strategy share stable_rate =
    if ltb strategy.optimal_stable_to_total_debt_ratio share
    then (do
      over ← checked_sub share strategy.optimal_stable_to_total_debt_ratio
      excess ← ray_div over (ray - strategy.optimal_stable_to_total_debt_ratio)
      part ← ray_mul strategy.stable_rate_excess_offset excess
      checked_add stable_rate part)
    else some stable_rate

unfoldable pub get_overall_borrow_rate : ℕ → ℕ → ℕ → ℕ → Option ℕ
get_overall_borrow_rate total_stable total_variable variable_rate average_stable_rate = do
  total ← checked_add total_stable total_variable
  if total == 0 then some 0 else (do
    variable_rays ← wad_to_ray total_variable
    weighted_variable ← ray_mul variable_rays variable_rate
    stable_rays ← wad_to_ray total_stable
    weighted_stable ← ray_mul stable_rays average_stable_rate
    weighted ← checked_add weighted_variable weighted_stable
    rays ← wad_to_ray total
    ray_div weighted rays)

-- The liquidity rate, the stable rate and the variable rate.
unfoldable pub calculate_interest_rates : Strategy → Params → Option (ℕ × ℕ × ℕ)
calculate_interest_rates strategy params = do
  total ← checked_add params.total_stable_debt params.total_variable_debt
  base_stable ← get_base_stable_borrow_rate strategy
  ratios ← get_ratios params total
  rates ← add_slopes strategy base_stable ratios.1
  stable_rate ← add_excess_offset strategy ratios.0 rates.0
  overall ←
      get_overall_borrow_rate params.total_stable_debt params.total_variable_debt rates.1
        params.average_stable_borrow_rate
  supplied ← ray_mul overall ratios.2
  share ← checked_sub percentage_factor params.reserve_factor
  liquidity_rate ← percent_mul supplied share
  some (liquidity_rate, stable_rate, rates.1)
