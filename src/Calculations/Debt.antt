-- ===== src/Calculations/Debt.antt =====
-- The reserve after borrowing and repayment, of test-suites/helpers/utils/calculations.ts.
pub mod Settled
pub mod Borrowing
use rasa_lending_platform_sm.Prelude.{some, Bool, true, false, if◌then◌else◌}
use rasa_lending_platform_sm.Prelude.Int.{ℤ, pos, ◌+ℤ◌, ◌-ℤ◌, eqb_ℤ, ltb_ℤ, abs}
use rasa_lending_platform_sm.Prelude.Result.{Result, ok, ◌>>=◌, defined}
use rasa_lending_platform_sm.Types.{SymbolMap, ReserveParams, RateMode}
use rasa_lending_platform_sm.WadRayMath.{ray_mul, ray_div, negated}
use rasa_lending_platform_sm.Calculations.Data.{ReserveData, UserReserveData}
use rasa_lending_platform_sm.Calculations.Interest.{
  calc_expected_stable_debt_token_balance, calc_expected_total_stable_debt,
  calc_expected_reserve_normalized_debt,
}
use rasa_lending_platform_sm.Calculations.Rates.{calc_expected_average_stable_borrow_rate}
use rasa_lending_platform_sm.Calculations.State.{
  calc_expected_variable_debt_token_balance, update_state, set_usage_ratios,
  update_liquidity_and_usage_ratios, start_reserve, set_rates,
  update_total_liquidity_and_usage_ratio,
}
use rasa_lending_platform_sm.Calculations.Liquidity.{max_uint_amount}

abbrev pub is_stable : RateMode → Bool
is_stable RateMode.none = false
is_stable RateMode.stable = true
is_stable RateMode.variable = false

-- `calcExpectedStableDebtTokenBalance` at a user's fields.
unfoldable pub stable_balance_of : UserReserveData → ℤ → Result ℤ
stable_balance_of user timestamp = do
  principal ← defined user.principal_stable_debt
  rate ← defined user.stable_borrow_rate
  last_updated ← defined user.stable_rate_last_updated
  ok (calc_expected_stable_debt_token_balance principal rate last_updated timestamp)

-- `calcExpectedTotalStableDebt` at a reserve's fields.
unfoldable pub total_stable_of : ReserveData → ℤ → Result ℤ
total_stable_of before timestamp = do
  principal ← defined before.principal_stable_debt
  rate ← defined before.average_stable_borrow_rate
  last_updated ← defined before.total_stable_debt_last_updated
  ok (calc_expected_total_stable_debt principal rate last_updated timestamp)

-- The total variable debt that has grown from the transaction to now.
unfoldable pub grown_variable_debt : ReserveData → ℤ → ReserveData → ℤ → ℤ → Result ReserveData
grown_variable_debt before scaled expected tx_timestamp current_timestamp = do
  rate ← defined expected.variable_borrow_rate
  index ← defined expected.variable_borrow_index
  let debt = calc_expected_reserve_normalized_debt rate index tx_timestamp current_timestamp
  ok (record expected { total_variable_debt = some (ray_mul scaled debt) })

unfoldable pub borrow_stable :
    SymbolMap ReserveParams → ℤ → ReserveData → ReserveData → ℤ → ℤ → Result ReserveData
borrow_stable reserves_params amount before updated tx_timestamp current_timestamp = do
  debt_until_tx ← total_stable_of before tx_timestamp
  average_before ← defined before.average_stable_borrow_rate
  stable_rate ← defined before.stable_borrow_rate
  average ← calc_expected_average_stable_borrow_rate average_before debt_until_tx amount stable_rate
  let principal = debt_until_tx +ℤ amount
  let borrowed = record updated {
    average_stable_borrow_rate = some average;
    principal_stable_debt = some principal;
  }
  total_variable ← defined borrowed.total_variable_debt
  priced ← set_rates reserves_params before principal total_variable borrowed
  let total_stable =
      calc_expected_total_stable_debt principal average tx_timestamp current_timestamp
  scaled ← defined before.scaled_variable_debt
  grown ←
      grown_variable_debt before scaled (record priced { total_stable_debt = some total_stable })
        tx_timestamp current_timestamp
  set_usage_ratios grown

unfoldable pub borrow_variable :
    SymbolMap ReserveParams → ℤ → ReserveData → ReserveData → ℤ → ℤ → Result ReserveData
borrow_variable reserves_params amount before updated tx_timestamp current_timestamp = do
  principal ← defined before.principal_stable_debt
  average ← defined before.average_stable_borrow_rate
  last_updated ← defined before.total_stable_debt_last_updated
  let stable_after_tx =
      calc_expected_stable_debt_token_balance principal average last_updated tx_timestamp
  total_stable ← total_stable_of before current_timestamp
  scaled_before ← defined before.scaled_variable_debt
  index ← defined updated.variable_borrow_index
  added ← ray_div amount index
  let scaled = scaled_before +ℤ added
  let variable_after_tx = ray_mul scaled index
  let borrowed = record updated {
    principal_stable_debt = before.principal_stable_debt;
    total_stable_debt = some total_stable;
    average_stable_borrow_rate = before.average_stable_borrow_rate;
    scaled_variable_debt = some scaled;
  }
  with_ratios ← set_usage_ratios borrowed
  priced ← set_rates reserves_params before stable_after_tx variable_after_tx with_ratios
  grown ← grown_variable_debt before scaled priced tx_timestamp current_timestamp
  set_usage_ratios grown

unfoldable pub calc_expected_reserve_data_after_borrow :
    SymbolMap ReserveParams → ℤ → RateMode → ReserveData → ℤ → ℤ → Result ReserveData
calc_expected_reserve_data_after_borrow reserves_params amount mode before tx_timestamp
      current_timestamp =
    do
      let start = record (start_reserve before) { last_update_timestamp = some tx_timestamp }
      updated ← update_state before start tx_timestamp
      drained ← update_liquidity_and_usage_ratios before updated (pos 0) amount
      if is_stable mode
          then borrow_stable reserves_params amount before drained tx_timestamp current_timestamp
          else borrow_variable reserves_params amount before drained tx_timestamp current_timestamp

-- The repaid amount: the user's whole debt of the mode if the largest amount is given.
unfoldable pub amount_to_repay : ℤ → RateMode → ℤ → ℤ → ℤ
amount_to_repay amount mode stable_debt variable_debt =
    if eqb_ℤ (abs amount) (pos max_uint_amount)
    then (if is_stable mode then stable_debt else variable_debt)
    else amount

-- No stable debt is left, and no average rate.
abbrev pub clear_stable : ReserveData → ReserveData
clear_stable expected = record expected {
  principal_stable_debt = some (pos 0);
  total_stable_debt = some (pos 0);
  average_stable_borrow_rate = some (pos 0);
}

unfoldable pub repay_stable :
    ℤ → ReserveData → UserReserveData → ReserveData → ℤ → Result ReserveData
repay_stable amount before user updated tx_timestamp = do
  expected_debt ← total_stable_of before tx_timestamp
  average_before ← defined before.average_stable_borrow_rate
  user_rate ← defined user.stable_borrow_rate
  let remaining = expected_debt -ℤ amount
  if ltb_ℤ remaining (pos 0) then ok (clear_stable updated) else (do
    average ←
        calc_expected_average_stable_borrow_rate average_before expected_debt (negated amount)
          user_rate
    if ltb_ℤ average (pos 0)
        then ok (clear_stable updated)
        else ok (record updated {
          principal_stable_debt = some remaining;
          total_stable_debt = some remaining;
          average_stable_borrow_rate = some average;
        }))

unfoldable pub repay_variable : ℤ → ReserveData → ReserveData → Result ReserveData
repay_variable amount before updated = do
  scaled_before ← defined before.scaled_variable_debt
  index ← defined updated.variable_borrow_index
  repaid ← ray_div amount index
  let scaled = scaled_before -ℤ repaid
  ok (record updated {
    scaled_variable_debt = some scaled;
    total_variable_debt = some (ray_mul scaled index);
    average_stable_borrow_rate = before.average_stable_borrow_rate;
  })

unfoldable pub calc_expected_reserve_data_after_repay :
    SymbolMap ReserveParams → ℤ → RateMode → ReserveData → UserReserveData → ℤ → Result ReserveData
calc_expected_reserve_data_after_repay reserves_params amount mode before user tx_timestamp = do
  stable_debt ← stable_balance_of user tx_timestamp
  variable_debt ← calc_expected_variable_debt_token_balance before user tx_timestamp
  let repaid = amount_to_repay amount mode stable_debt variable_debt
  updated ← update_state before (start_reserve before) tx_timestamp
  funded ← update_liquidity_and_usage_ratios before updated repaid (pos 0)
  settled ←
      if is_stable mode
      then repay_stable repaid before user funded tx_timestamp
      else repay_variable repaid before funded
  with_ratios ← set_usage_ratios settled
  total_stable ← defined with_ratios.total_stable_debt
  total_variable ← defined with_ratios.total_variable_debt
  priced ← set_rates reserves_params before total_stable total_variable with_ratios
  update_total_liquidity_and_usage_ratio
      (record priced { last_update_timestamp = some tx_timestamp })
