-- ===== src/Calculations/User.antt =====
-- A user's position after an action that moves liquidity, and after the collateral switch, of
-- test-suites/helpers/utils/calculations.ts.
pub mod Balances
pub mod Withdrawal
use rasa_lending_platform_sm.Prelude.{Bool, true, false, some, if◌then◌else◌}
use rasa_lending_platform_sm.Prelude.Int.{ℤ, pos, ◌+ℤ◌, ◌-ℤ◌, eqb_ℤ}
use rasa_lending_platform_sm.Prelude.Result.{Result, ok, ◌>>=◌, defined}
use rasa_lending_platform_sm.Calculations.Data.{ReserveData, UserReserveData, empty_user}
use rasa_lending_platform_sm.Calculations.State.{
  calc_expected_rs_token_balance, calc_expected_scaled_rs_token_balance,
  calc_expected_variable_debt_token_balance,
}
use rasa_lending_platform_sm.Calculations.Liquidity.{max_uint_amount}
use rasa_lending_platform_sm.Calculations.Debt.{stable_balance_of}

-- The code assigns `principalStableDebt` three times; the last assignment, of the variable debt,
-- stays.
unfoldable pub calc_expected_user_data_after_deposit :
    ℤ → ReserveData → ReserveData → UserReserveData → ℤ → Result UserReserveData
calc_expected_user_data_after_deposit amount before after user tx_timestamp = do
  stable_debt ← stable_balance_of user tx_timestamp
  variable_debt ← calc_expected_variable_debt_token_balance before user tx_timestamp
  index ← defined after.liquidity_index
  scaled ← calc_expected_scaled_rs_token_balance user index amount (pos 0)
  balance ← calc_expected_rs_token_balance before user tx_timestamp
  balance_before ← defined user.current_rs_token_balance
  wallet ← defined user.wallet_balance
  ok (record empty_user {
    current_stable_debt = some stable_debt;
    current_variable_debt = some variable_debt;
    principal_stable_debt = some variable_debt;
    scaled_variable_debt = user.scaled_variable_debt;
    variable_borrow_index = user.variable_borrow_index;
    stable_borrow_rate = user.stable_borrow_rate;
    stable_rate_last_updated = user.stable_rate_last_updated;
    liquidity_rate = after.liquidity_rate;
    scaled_rs_token_balance = some scaled;
    current_rs_token_balance = some (balance +ℤ amount);
    usage_as_collateral_enabled =
        if eqb_ℤ balance_before (pos 0) then some true else user.usage_as_collateral_enabled;
    wallet_balance = some (wallet -ℤ amount);
  })

unfoldable pub calc_expected_user_data_after_withdraw :
    ℤ → ReserveData → ReserveData → UserReserveData → ℤ → Result UserReserveData
calc_expected_user_data_after_withdraw asked before after user tx_timestamp = do
  balance ← calc_expected_rs_token_balance before user tx_timestamp
  let amount = if eqb_ℤ asked (pos max_uint_amount) then balance else asked
  index ← defined after.liquidity_index
  scaled ← calc_expected_scaled_rs_token_balance user index (pos 0) amount
  stable_debt ← stable_balance_of user tx_timestamp
  variable_debt ← calc_expected_variable_debt_token_balance before user tx_timestamp
  balance_before ← defined user.current_rs_token_balance
  wallet ← defined user.wallet_balance
  let remaining = balance -ℤ amount
  ok (record empty_user {
    scaled_rs_token_balance = some scaled;
    current_rs_token_balance = some remaining;
    principal_stable_debt = user.principal_stable_debt;
    scaled_variable_debt = user.scaled_variable_debt;
    current_stable_debt = some stable_debt;
    current_variable_debt = some variable_debt;
    variable_borrow_index = user.variable_borrow_index;
    stable_borrow_rate = user.stable_borrow_rate;
    stable_rate_last_updated = user.stable_rate_last_updated;
    liquidity_rate = after.liquidity_rate;
    usage_as_collateral_enabled =
        if eqb_ℤ balance_before (pos 0)
        then some true
        else if eqb_ℤ remaining (pos 0)
        then some false
        else user.usage_as_collateral_enabled;
    wallet_balance = some (wallet +ℤ amount);
  })

unfoldable pub calc_expected_user_data_after_set_use_as_collateral :
    Bool → ReserveData → UserReserveData → UserReserveData
calc_expected_user_data_after_set_use_as_collateral use_as_collateral before user = record user {
  usage_as_collateral_enabled = some use_as_collateral;
}
