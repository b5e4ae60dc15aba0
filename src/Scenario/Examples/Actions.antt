-- ===== src/Scenario/Examples/Actions.antt =====
-- The actions of test-suites/helpers/actions.ts on a small chain.
use rasa_lending_platform_sm.Calculations.Interest.{
  calc_compounded_interest, calc_expected_reserve_normalized_debt,
  calc_expected_stable_debt_token_balance, calc_expected_total_stable_debt, calc_linear_interest,
  compound_over,
}
use rasa_lending_platform_sm.Calculations.Liquidity.{calc_expected_reserve_data_after_deposit}
use rasa_lending_platform_sm.Calculations.Rates.{
  add_stable_excess, calc_expected_interest_rates, calc_expected_overall_borrow_rate,
  calc_expected_usage_ratios, find_params, usage_rates,
}
use rasa_lending_platform_sm.Calculations.State.{
  calc_expected_accrue_to_treasury, calc_expected_liquidity_index,
  calc_expected_reserve_normalized_income, calc_expected_rs_token_balance,
  calc_expected_scaled_rs_token_balance, calc_expected_total_variable_debt,
  calc_expected_variable_borrow_index, calc_expected_variable_debt_token_balance, finish_reserve,
  set_rates, set_usage_ratios, total_debt_accrued, update_liquidity_and_usage_ratios, update_state,
  update_total_liquidity_and_usage_ratio,
}
use rasa_lending_platform_sm.Calculations.User.{calc_expected_user_data_after_deposit}
use rasa_lending_platform_sm.Helpers.{fetched_ratio, get_reserve_data, get_user_data}
use rasa_lending_platform_sm.Prelude.{◌↔◌, none, refl, some, ◌≡◌}
use rasa_lending_platform_sm.Prelude.Int.{tdiv, ◌*ℤ◌, ◌+ℤ◌, ◌-ℤ◌}
use rasa_lending_platform_sm.Prelude.Result.{ok, quotient}
use rasa_lending_platform_sm.Calculations.Debt.{stable_balance_of}
use rasa_lending_platform_sm.Scenario.Actions.Supply.{withdraw}
use rasa_lending_platform_sm.Scenario.Actions.Supply.Verdicts.{
  DepositPasses, deposit_iff, WithdrawalPasses, withdraw_iff,
}
use rasa_lending_platform_sm.Scenario.Actions.Debt.{borrow, repay}
use rasa_lending_platform_sm.Scenario.Actions.Debt.Verdicts.{RepaymentPasses, repay_iff}
use rasa_lending_platform_sm.Scenario.Actions.Debt.Borrowing.{BorrowPasses, borrow_iff}
use rasa_lending_platform_sm.Scenario.Actions.{
  by_result, convert_to_currency_decimals, cost_and_timestamp, expect_equal_reserve,
  expect_equal_user, expect_predicted, get_contracts_data, get_tx_cost_and_timestamp,
  reserve_address, value_to_send, wait_for_tx,
}
use rasa_lending_platform_sm.Scenario.Actions.Supply.{deposit, expect_supply}
use rasa_lending_platform_sm.Scenario.Compare.{
  almost_equal, compare_numbers, compare_reserves, compare_users, compare_with,
}
use rasa_lending_platform_sm.Scenario.ParseInt.{
  digit_value, digits, is_space, more_digits, parse_int, prefixed, signed, skip_space,
}
use rasa_lending_platform_sm.WadRayMath.{percent_mul, ray_div, ray_mul, wad_to_ray}
use rasa_lending_platform_sm.Scenario.Examples.SmallChain.{small_chain}

-- The supply passes on this chain.
pub supply_passes :
    deposit small_chain "DAI" "1000" "0xalice" "0xalice" none "success" 0 ≡ ok (tt, 1)
unfolding reserve_address convert_to_currency_decimals parse_int get_contracts_data get_reserve_data
    fetched_ratio ◌+ℤ◌ value_to_send expect_supply by_result wait_for_tx get_tx_cost_and_timestamp
    cost_and_timestamp expect_predicted calc_expected_reserve_data_after_deposit update_state
    calc_expected_liquidity_index calc_compounded_interest calc_expected_reserve_normalized_debt
    calc_expected_stable_debt_token_balance calc_expected_total_stable_debt calc_linear_interest
    compound_over add_stable_excess calc_expected_interest_rates calc_expected_overall_borrow_rate
    calc_expected_usage_ratios find_params usage_rates calc_expected_accrue_to_treasury
    calc_expected_reserve_normalized_income calc_expected_rs_token_balance
    calc_expected_scaled_rs_token_balance calc_expected_total_variable_debt
    calc_expected_variable_borrow_index calc_expected_variable_debt_token_balance finish_reserve
    set_rates set_usage_ratios total_debt_accrued update_liquidity_and_usage_ratios
    update_total_liquidity_and_usage_ratio calc_expected_user_data_after_deposit get_user_data tdiv
    ◌*ℤ◌ ◌-ℤ◌ quotient expect_equal_reserve expect_equal_user almost_equal compare_numbers
    compare_reserves compare_users compare_with digit_value digits is_space more_digits prefixed
    signed skip_space percent_mul ray_div ray_mul wad_to_ray deposit stable_balance_of
supply_passes = refl

deposit_iff_example : DepositPasses small_chain "DAI" "1000" "0xalice" "0xalice" none "success" 0 1
deposit_iff_example =
    (deposit_iff small_chain "DAI" "1000" "0xalice" "0xalice" none "success" 0 1 refl).0
      supply_passes

withdraw_iff_example :
    (withdraw small_chain "DAI" "-1" "0xalice" "revert" 1 ≡ ok (tt, 1))
    ↔ WithdrawalPasses small_chain "DAI" "-1" "0xalice" "revert" 1 1
withdraw_iff_example = withdraw_iff small_chain "DAI" "-1" "0xalice" "revert" 1 1 refl

repay_iff_example :
    (repay small_chain "DAI" "10" "2" "0xalice" "0xalice" none "revert" (some "30") 1 ≡ ok (tt, 1))
    ↔ RepaymentPasses small_chain "DAI" "10" "2" "0xalice" "0xalice" none "revert" (some "30") 1 1
repay_iff_example =
    repay_iff small_chain "DAI" "10" "2" "0xalice" "0xalice" none "revert" (some "30") 1 1 refl

borrow_iff_example :
    (borrow small_chain "DAI" "10" "2" "0xalice" "0xbob" (some "30") "revert" 1 ≡ ok (tt, 1))
    ↔ BorrowPasses small_chain "DAI" "10" "2" "0xalice" "0xbob" (some "30") "revert" 1 1
borrow_iff_example =
    borrow_iff small_chain "DAI" "10" "2" "0xalice" "0xbob" (some "30") "revert" 1 1 refl
