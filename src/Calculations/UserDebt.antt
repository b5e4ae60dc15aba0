-- ===== src/Calculations/UserDebt.antt =====
-- A user's position after an action that moves debt, of test-suites/helpers/utils/calculations.ts.
pub mod Repayment
use text.Mathlib.Text.{◌==◌ as str_eq}
use rasa_lending_platform_sm.Prelude.{String, some, if◌then◌else◌}
use rasa_lending_platform_sm.Prelude.Int.{ℤ, pos, ◌+ℤ◌, ◌-ℤ◌, eqb_ℤ}
use rasa_lending_platform_sm.Prelude.Result.{Result, ok, ◌>>=◌, defined}
use rasa_lending_platform_sm.Types.{RateMode}
use rasa_lending_platform_sm.WadRayMath.{ray_mul, ray_div}
use rasa_lending_platform_sm.Calculations.Data.{ReserveData, UserReserveData, empty_user}
use rasa_lending_platform_sm.Calculations.Interest.{calc_expected_stable_debt_token_balance}
use rasa_lending_platform_sm.Calculations.Rates.{calc_expected_user_stable_rate}
use rasa_lending_platform_sm.Calculations.State.{
  calc_expected_rs_token_balance, calc_expected_variable_debt_token_balance,
}
use rasa_lending_platform_sm.Calculations.Debt.{is_stable, stable_balance_of, amount_to_repay}

unfoldable pub user_borrow_stable :
    ℤ → ReserveData → UserReserveData → ℤ → ℤ → Result UserReserveData
user_borrow_stable amount before user tx_timestamp current_timestamp = do
  debt_until_tx ← stable_balance_of user tx_timestamp
  user_rate ← defined user.stable_borrow_rate
  reserve_rate ← defined before.stable_borrow_rate
  let principal = debt_until_tx +ℤ amount
  rate ← calc_expected_user_stable_rate debt_until_tx user_rate amount reserve_rate
  let current =
      calc_expected_stable_debt_token_balance principal rate tx_timestamp current_timestamp
  ok (record empty_user {
    principal_stable_debt = some principal;
    stable_rate_last_updated = some tx_timestamp;
    stable_borrow_rate = some rate;
    current_stable_debt = some current;
    scaled_variable_debt = user.scaled_variable_debt;
  })

-- The code adds the new debt to the reserve's scaled debt, not to the user's.
unfoldable pub user_borrow_variable :
    ℤ → ReserveData → ReserveData → UserReserveData → ℤ → Result UserReserveData
user_borrow_variable amount before after user current_timestamp = do
  scaled_before ← defined before.scaled_variable_debt
  index ← defined after.variable_borrow_index
  added ← ray_div amount index
  current ← stable_balance_of user current_timestamp
  ok (record empty_user {
    scaled_variable_debt = some (scaled_before +ℤ added);
    principal_stable_debt = user.principal_stable_debt;
    stable_borrow_rate = user.stable_borrow_rate;
    stable_rate_last_updated = user.stable_rate_last_updated;
    current_stable_debt = some current;
  })

unfoldable pub calc_expected_user_data_after_borrow :
    ℤ → RateMode → ReserveData → ReserveData → UserReserveData → ℤ → ℤ → Result UserReserveData
calc_expected_user_data_after_borrow amount mode before after user tx_timestamp current_timestamp =
    do
      borrowed ←
          if is_stable mode
          then user_borrow_stable amount before user tx_timestamp current_timestamp
          else user_borrow_variable amount before after user current_timestamp
      variable_debt ← calc_expected_variable_debt_token_balance after borrowed current_timestamp
      balance ← calc_expected_rs_token_balance after user current_timestamp
      wallet ← defined user.wallet_balance
      ok (record borrowed {
        current_variable_debt = some variable_debt;
        liquidity_rate = after.liquidity_rate;
        usage_as_collateral_enabled = user.usage_as_collateral_enabled;
        current_rs_token_balance = some balance;
        scaled_rs_token_balance = user.scaled_rs_token_balance;
        wallet_balance = some (wallet +ℤ amount);
      })

unfoldable pub user_repay_stable : ℤ → ℤ → ℤ → UserReserveData → ℤ → UserReserveData
user_repay_stable repaid stable_debt variable_debt user tx_timestamp =
    let remaining = stable_debt -ℤ repaid in
    record empty_user {
      scaled_variable_debt = user.scaled_variable_debt;
      current_variable_debt = some variable_debt;
      principal_stable_debt = some remaining;
      current_stable_debt = some remaining;
      stable_borrow_rate =
          if eqb_ℤ remaining (pos 0) then some (pos 0) else user.stable_borrow_rate;
      stable_rate_last_updated = some (if eqb_ℤ remaining (pos 0) then pos 0 else tx_timestamp);
    }

unfoldable pub user_repay_variable : ℤ → ℤ → ReserveData → UserReserveData → Result UserReserveData
user_repay_variable repaid stable_debt after user = do
  scaled_before ← defined user.scaled_variable_debt
  index ← defined after.variable_borrow_index
  removed ← ray_div repaid index
  let scaled = scaled_before -ℤ removed
  ok (record empty_user {
    current_stable_debt = user.principal_stable_debt;
    principal_stable_debt = some stable_debt;
    stable_borrow_rate = user.stable_borrow_rate;
    stable_rate_last_updated = user.stable_rate_last_updated;
    scaled_variable_debt = some scaled;
    current_variable_debt = some (ray_mul scaled index);
  })

unfoldable pub calc_expected_user_data_after_repay :
    ℤ
    → RateMode
    → ReserveData
    → ReserveData
    → UserReserveData
    → String
    → String
    → ℤ
    → ℤ
    → Result UserReserveData
calc_expected_user_data_after_repay total_repaid mode before after user payer on_behalf_of
      tx_timestamp current_timestamp =
    do
      variable_debt ← calc_expected_variable_debt_token_balance before user current_timestamp
      stable_debt ← stable_balance_of user current_timestamp
      let repaid = amount_to_repay total_repaid mode stable_debt variable_debt
      settled ←
          if is_stable mode
          then ok (user_repay_stable repaid stable_debt variable_debt user tx_timestamp)
          else user_repay_variable repaid stable_debt after user
      balance ← calc_expected_rs_token_balance before user tx_timestamp
      wallet ← defined user.wallet_balance
      ok (record settled {
        liquidity_rate = after.liquidity_rate;
        usage_as_collateral_enabled = user.usage_as_collateral_enabled;
        current_rs_token_balance = some balance;
        scaled_rs_token_balance = user.scaled_rs_token_balance;
        wallet_balance = some (if str_eq payer on_behalf_of then wallet -ℤ repaid else wallet);
      })

unfoldable pub user_swap_to_variable : ℤ → ReserveData → UserReserveData → Result UserReserveData
user_swap_to_variable stable_debt after user = do
  scaled_before ← defined user.scaled_variable_debt
  index ← defined after.variable_borrow_index
  added ← ray_div stable_debt index
  let scaled = scaled_before +ℤ added
  ok (record user {
    current_stable_debt = some (pos 0);
    principal_stable_debt = some (pos 0);
    stable_borrow_rate = some (pos 0);
    scaled_variable_debt = some scaled;
    current_variable_debt = some (ray_mul scaled index);
    stable_rate_last_updated = some (pos 0);
  })

unfoldable pub user_swap_to_stable :
    ℤ → ℤ → ReserveData → UserReserveData → ℤ → Result UserReserveData
user_swap_to_stable stable_debt variable_debt before user tx_timestamp = do
  stable_before ← defined user.current_stable_debt
  user_rate ← defined user.stable_borrow_rate
  reserve_rate ← defined before.stable_borrow_rate
  let principal = stable_before +ℤ variable_debt
  rate ← calc_expected_user_stable_rate stable_debt user_rate variable_debt reserve_rate
  ok (record user {
    principal_stable_debt = some principal;
    current_stable_debt = some principal;
    stable_borrow_rate = some rate;
    stable_rate_last_updated = some tx_timestamp;
    current_variable_debt = some (pos 0);
    scaled_variable_debt = some (pos 0);
  })

unfoldable pub calc_expected_user_data_after_swap_rate_mode :
    ReserveData → ReserveData → UserReserveData → RateMode → ℤ → Result UserReserveData
calc_expected_user_data_after_swap_rate_mode before after user mode tx_timestamp = do
  stable_debt ← stable_balance_of user tx_timestamp
  variable_debt ← calc_expected_variable_debt_token_balance before user tx_timestamp
  balance ← calc_expected_rs_token_balance before user tx_timestamp
  swapped ←
      if is_stable mode
      then user_swap_to_variable stable_debt after user
      else user_swap_to_stable stable_debt variable_debt before user tx_timestamp
  ok (record swapped {
    current_rs_token_balance = some balance;
    liquidity_rate = after.liquidity_rate;
  })

unfoldable pub calc_expected_user_data_after_stable_rate_rebalance :
    ReserveData → ReserveData → UserReserveData → ℤ → Result UserReserveData
calc_expected_user_data_after_stable_rate_rebalance before after user tx_timestamp = do
  variable_debt ← calc_expected_variable_debt_token_balance before user tx_timestamp
  stable_debt ← stable_balance_of user tx_timestamp
  balance ← calc_expected_rs_token_balance before user tx_timestamp
  ok (record user {
    current_stable_debt = some stable_debt;
    principal_stable_debt = some stable_debt;
    current_variable_debt = some variable_debt;
    stable_rate_last_updated = some tx_timestamp;
    principal_variable_debt = user.principal_variable_debt;
    stable_borrow_rate = after.average_stable_borrow_rate;
    liquidity_rate = after.liquidity_rate;
    current_rs_token_balance = some balance;
  })
