-- ===== src/Calculations/Interest.antt =====
-- Interest over time and the balances that it grows, of test-suites/helpers/utils/calculations.ts.
pub mod Closed
pub mod Growth
use rasa_lending_platform_sm.Prelude.{ℕ, ◌||◌, if◌then◌else◌}
use rasa_lending_platform_sm.Prelude.Int.{ℤ, pos, ◌+ℤ◌, ◌-ℤ◌, ◌*ℤ◌, tdiv, eqb_ℤ, ltb_ℤ}
use rasa_lending_platform_sm.WadRayMath.{ray, ray_mul}

abbrev pub one_year : ℕ
one_year = 31536000

unfoldable pub calc_linear_interest : ℤ → ℤ → ℤ → ℤ
calc_linear_interest rate current_timestamp last_update_timestamp =
    let time_difference = current_timestamp -ℤ last_update_timestamp in
    tdiv (rate *ℤ time_difference) (pos one_year) +ℤ pos ray

-- The body of `calcCompoundedInterest`, from its time difference on.
unfoldable pub compound_over : ℤ → ℤ → ℤ
compound_over rate time_difference =
    let seconds_per_year = pos one_year in
    let exp_minus_one = time_difference -ℤ pos 1 in
    let exp_minus_two = if ltb_ℤ (pos 2) time_difference then time_difference -ℤ pos 2 else pos 0 in
    let base_power_two = tdiv (ray_mul rate rate) (seconds_per_year *ℤ seconds_per_year) in
    let base_power_three = tdiv (ray_mul base_power_two rate) seconds_per_year in
    let second_term = tdiv (time_difference *ℤ exp_minus_one *ℤ base_power_two) (pos 2) in
    let third_term =
      tdiv (time_difference *ℤ exp_minus_one *ℤ exp_minus_two *ℤ base_power_three) (pos 6) in
    if eqb_ℤ time_difference (pos 0)
    then pos ray
    else (pos ray +ℤ tdiv (rate *ℤ time_difference) seconds_per_year +ℤ second_term +ℤ third_term)

unfoldable pub calc_compounded_interest : ℤ → ℤ → ℤ → ℤ
calc_compounded_interest rate current_timestamp last_update_timestamp =
    compound_over rate (current_timestamp -ℤ last_update_timestamp)

unfoldable pub calc_expected_stable_debt_token_balance : ℤ → ℤ → ℤ → ℤ → ℤ
calc_expected_stable_debt_token_balance principal rate last_updated current =
    if eqb_ℤ rate (pos 0) || eqb_ℤ current last_updated || eqb_ℤ last_updated (pos 0)
    then principal
    else ray_mul principal (calc_compounded_interest rate current last_updated)

unfoldable pub calc_expected_total_stable_debt : ℤ → ℤ → ℤ → ℤ → ℤ
calc_expected_total_stable_debt principal average_rate last_update current =
    ray_mul (calc_compounded_interest average_rate current last_update) principal

unfoldable pub calc_expected_reserve_normalized_debt : ℤ → ℤ → ℤ → ℤ → ℤ
calc_expected_reserve_normalized_debt rate index last_update current =
    if eqb_ℤ rate (pos 0)
    then index
    else ray_mul (calc_compounded_interest rate current last_update) index
