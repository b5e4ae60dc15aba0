-- ===== src/Calculations/Swap.antt =====
-- The reserve after a swap of the rate mode and after a rebalancing of the stable rate, of
-- test-suites/helpers/utils/calculations.ts.
use rasa_lending_platform_sm.Prelude.{some, if◌then◌else◌}
use rasa_lending_platform_sm.Prelude.Int.{ℤ, pos, ◌+ℤ◌, ◌-ℤ◌}
use rasa_lending_platform_sm.Prelude.Result.{Result, ok, ◌>>=◌, defined}
use rasa_lending_platform_sm.Types.{SymbolMap, ReserveParams, RateMode}
use rasa_lending_platform_sm.WadRayMath.{ray_mul, ray_div, negated}
use rasa_lending_platform_sm.Calculations.Data.{ReserveData, UserReserveData}
use rasa_lending_platform_sm.Calculations.Rates.{
  calc_expected_average_stable_borrow_rate, calc_expected_average_stable_borrow_rate_rebalance,
}
use rasa_lending_platform_sm.Calculations.State.{
  calc_expected_variable_debt_token_balance, update_state, set_usage_ratios,
  update_liquidity_and_usage_ratios, start_reserve, finish_reserve,
}
use rasa_lending_platform_sm.Calculations.Debt.{is_stable, stable_balance_of, total_stable_of}

-- The user's stable debt becomes variable debt.
unfoldable pub swap_to_variable :
    ℤ → ReserveData → UserReserveData → ReserveData → Result ReserveData
swap_to_variable stable_debt before user updated = do
  scaled_before ← defined before.scaled_variable_debt
  index ← defined updated.variable_borrow_index
  total_until_tx ← defined updated.total_stable_debt
  average_before ← defined before.average_stable_borrow_rate
  user_rate ← defined user.stable_borrow_rate
  added ← ray_div stable_debt index
  let scaled = scaled_before +ℤ added
  let principal = total_until_tx -ℤ stable_debt
  average ←
      calc_expected_average_stable_borrow_rate average_before (principal +ℤ stable_debt)
        (negated stable_debt) user_rate
  ok (record updated {
    scaled_variable_debt = some scaled;
    total_variable_debt = some (ray_mul scaled index);
    principal_stable_debt = some principal;
    total_stable_debt = some principal;
    average_stable_borrow_rate = some average;
  })

-- The user's variable debt becomes stable debt.
unfoldable pub swap_to_stable : ℤ → ReserveData → ReserveData → Result ReserveData
swap_to_stable variable_debt before updated = do
  total_until_tx ← defined updated.total_stable_debt
  scaled_before ← defined before.scaled_variable_debt
  index ← defined updated.variable_borrow_index
  average_before ← defined before.average_stable_borrow_rate
  total_before ← defined before.total_stable_debt
  stable_rate ← defined before.stable_borrow_rate
  removed ← ray_div variable_debt index
  let principal = total_until_tx +ℤ variable_debt
  let scaled = scaled_before -ℤ removed
  average ←
      calc_expected_average_stable_borrow_rate average_before total_before variable_debt stable_rate
  ok (record updated {
    principal_stable_debt = some principal;
    total_stable_debt = some principal;
    scaled_variable_debt = some scaled;
    total_variable_debt = some (ray_mul scaled index);
    average_stable_borrow_rate = some average;
  })

unfoldable pub calc_expected_reserve_data_after_swap_rate_mode :
    SymbolMap ReserveParams → ReserveData → UserReserveData → RateMode → ℤ → Result ReserveData
calc_expected_reserve_data_after_swap_rate_mode reserves_params before user mode tx_timestamp = do
  updated ← update_state before (start_reserve before) tx_timestamp
  funded ← update_liquidity_and_usage_ratios before updated (pos 0) (pos 0)
  variable_debt ← calc_expected_variable_debt_token_balance before user tx_timestamp
  stable_debt ← stable_balance_of user tx_timestamp
  swapped ←
      if is_stable mode
      then swap_to_variable stable_debt before user funded
      else swap_to_stable variable_debt before funded
  with_ratios ← set_usage_ratios swapped
  finish_reserve reserves_params before with_ratios

-- The user's stable debt is taken out at its own rate and put back at the reserve's.
unfoldable pub rebalance_average :
    ℤ → ReserveData → UserReserveData → ReserveData → ℤ → Result ReserveData
rebalance_average user_debt before user funded tx_timestamp = do
  total_stable ← total_stable_of before tx_timestamp
  average_before ← defined before.average_stable_borrow_rate
  user_rate ← defined user.stable_borrow_rate
  stable_rate ← defined before.stable_borrow_rate
  removed ←
      calc_expected_average_stable_borrow_rate_rebalance average_before total_stable
        (negated user_debt) user_rate
  average ←
      calc_expected_average_stable_borrow_rate_rebalance removed (total_stable -ℤ user_debt)
        user_debt stable_rate
  ok (record funded {
    principal_stable_debt = some total_stable;
    total_stable_debt = some total_stable;
    average_stable_borrow_rate = some average;
  })

unfoldable pub calc_expected_reserve_data_after_stable_rate_rebalance :
    SymbolMap ReserveParams → ReserveData → UserReserveData → ℤ → Result ReserveData
calc_expected_reserve_data_after_stable_rate_rebalance reserves_params before user tx_timestamp = do
  updated ← update_state before (start_reserve before) tx_timestamp
  funded ← update_liquidity_and_usage_ratios before updated (pos 0) (pos 0)
  user_debt ← stable_balance_of user tx_timestamp
  rebalanced ← rebalance_average user_debt before user funded tx_timestamp
  with_ratios ← set_usage_ratios rebalanced
  finish_reserve reserves_params before with_ratios
