-- ===== src/Calculations/Rates.antt =====
-- Usage ratios, average rates and the interest rate strategy, of
-- test-suites/helpers/utils/calculations.ts. The module variable `configuration` is an argument.
pub mod Usage
pub mod Average
pub mod Strategy
pub mod Total
use text.Mathlib.Text.{◌==◌ as str_eq}
use rasa_lending_platform_sm.Prelude.{Option, none, some, [], ◌∷◌, String, if◌then◌else◌}
use rasa_lending_platform_sm.Prelude.Int.{ℤ, pos, ◌+ℤ◌, ◌-ℤ◌, ◌*ℤ◌, eqb_ℤ, ltb_ℤ, leb_ℤ}
use rasa_lending_platform_sm.Prelude.Result.{
  Result, ok, ◌>>=◌, ◌>>◌, guard, defined, quotient, assertion_failed,
}
use rasa_lending_platform_sm.Types.{SymbolMap, ReserveParams, InterestRateStrategyParams}
use rasa_lending_platform_sm.WadRayMath.{
  ray, ray_mul, ray_div, percent_mul, percentage_factor, wad_to_ray,
}

unfoldable pub calc_expected_usage_ratios : ℤ → ℤ → ℤ → ℤ → Result (ℤ × ℤ)
calc_expected_usage_ratios total_stable total_variable available_liquidity total_liquidity = do
  let total_debt = total_stable +ℤ total_variable
  borrow_ratio ←
      if eqb_ℤ total_debt (pos 0)
      then ok (pos 0)
      else ray_div total_debt (available_liquidity +ℤ total_debt)
  supply_ratio ←
      if eqb_ℤ total_debt (pos 0)
      then ok (pos 0)
      else ray_div total_debt (total_liquidity +ℤ total_debt)
  guard (leb_ℤ supply_ratio borrow_ratio) assertion_failed
  ok (borrow_ratio, supply_ratio)

unfoldable pub calc_expected_overall_borrow_rate : ℤ → ℤ → ℤ → ℤ → Result ℤ
calc_expected_overall_borrow_rate total_stable total_variable variable_rate average_stable_rate =
    let total_borrows = total_stable +ℤ total_variable in
    let weighted_variable = ray_mul (wad_to_ray total_variable) variable_rate in
    let weighted_stable = ray_mul (wad_to_ray total_stable) average_stable_rate in
    if eqb_ℤ total_borrows (pos 0)
    then ok (pos 0)
    else ray_div (weighted_variable +ℤ weighted_stable) (wad_to_ray total_borrows)

unfoldable pub calc_expected_average_stable_borrow_rate : ℤ → ℤ → ℤ → ℤ → Result ℤ
calc_expected_average_stable_borrow_rate average_before total_before amount_changed rate =
    let total_borrowed = total_before +ℤ amount_changed in
    if eqb_ℤ total_borrowed (pos 0)
    then ok (pos 0)
    else quotient (average_before *ℤ total_before +ℤ rate *ℤ amount_changed) total_borrowed

unfoldable pub calc_expected_average_stable_borrow_rate_rebalance : ℤ → ℤ → ℤ → ℤ → Result ℤ
calc_expected_average_stable_borrow_rate_rebalance average_before total_before amount rate =
    let weighted_total = ray_mul average_before total_before in
    let weighted_amount = ray_mul rate (wad_to_ray amount) in
    let total_borrowed = total_before +ℤ wad_to_ray amount in
    if eqb_ℤ total_borrowed (pos 0)
    then ok (pos 0)
    else ray_div (weighted_total +ℤ weighted_amount) total_borrowed

unfoldable pub calc_expected_user_stable_rate : ℤ → ℤ → ℤ → ℤ → Result ℤ
calc_expected_user_stable_rate balance_before rate_before amount rate_new =
    quotient (balance_before *ℤ rate_before +ℤ amount *ℤ rate_new) (balance_before +ℤ amount)

-- The entry of `Object.entries(reservesParams)` under a key.
unfoldable pub find_params : String → SymbolMap ReserveParams → Option ReserveParams
find_params key [] = none
find_params key ((symbol, params) ∷ rest) =
    if str_eq symbol key then some params else find_params key rest

-- The stable and the variable rate, at a usage ratio above or up to the optimal one.
unfoldable pub usage_rates : InterestRateStrategyParams → ℤ → ℤ → Result (ℤ × ℤ)
usage_rates strategy market_stable_rate borrow_ratio =
    let optimal = strategy.optimal_usage_ratio in
    let max_excess = pos ray -ℤ optimal in
    let base = strategy.base_variable_borrow_rate in
    let above : ℤ → ℤ × ℤ = λ excess. (
      market_stable_rate
          +ℤ strategy.stable_rate_slope1
          +ℤ ray_mul strategy.stable_rate_slope2 excess,
      base +ℤ strategy.variable_rate_slope1 +ℤ ray_mul strategy.variable_rate_slope2 excess,
    ) in
    if ltb_ℤ optimal borrow_ratio
    then (do excess ← ray_div (borrow_ratio -ℤ optimal) max_excess; ok (above excess))
    else (do
      stable_part ← ray_div (ray_mul strategy.stable_rate_slope1 borrow_ratio) optimal
      variable_part ← ray_div (ray_mul strategy.variable_rate_slope1 borrow_ratio) optimal
      ok (market_stable_rate +ℤ stable_part, base +ℤ variable_part))

-- What the stable rate gains when stable debt exceeds its optimal share.
unfoldable pub add_stable_excess : InterestRateStrategyParams → ℤ → ℤ → Result ℤ
add_stable_excess strategy stable_ratio stable_rate =
    let optimal = strategy.optimal_stable_to_total_debt_ratio in
    if ltb_ℤ optimal stable_ratio
    then (do
      excess ← ray_div (stable_ratio -ℤ optimal) (pos ray -ℤ optimal)
      ok (stable_rate +ℤ ray_mul strategy.stable_rate_excess_offset excess))
    else ok stable_rate

-- The rates (liquidity, stable, variable) of the reserve.
unfoldable pub calc_expected_interest_rates :
    SymbolMap ReserveParams → String → ℤ → ℤ → ℤ → ℤ → ℤ → ℤ → Result (ℤ × ℤ × ℤ)
calc_expected_interest_rates reserves_params symbol market_stable_rate total_stable total_variable
      average_stable_rate available_liquidity total_liquidity =
    do
      params ← defined (find_params symbol reserves_params)
      ratios ←
          calc_expected_usage_ratios total_stable total_variable available_liquidity total_liquidity
      stable_ratio ←
          if ltb_ℤ (pos 0) total_stable
          then ray_div total_stable (total_stable +ℤ total_variable)
          else ok (pos 0)
      rates ← usage_rates params.strategy market_stable_rate ratios.0
      stable_rate ← add_stable_excess params.strategy stable_ratio rates.0
      overall ←
          calc_expected_overall_borrow_rate total_stable total_variable rates.1 average_stable_rate
      let share = pos percentage_factor -ℤ params.reserve_factor
      ok (percent_mul (ray_mul overall ratios.1) share, stable_rate, rates.1)
