-- ===== src/Helpers.antt =====
-- test-suites/helpers/utils/helpers.ts: the data of a reserve and of a user, put together from the
-- answers of the contracts. The answers are unsigned words.
pub mod Coherence
pub mod Examples
use rasa_lending_platform_sm.Prelude.{ℕ, Bool, String, Option, none, some, if◌then◌else◌}
use rasa_lending_platform_sm.Prelude.Int.{ℤ, pos, ◌+ℤ◌, eqb_ℤ, leb_ℤ}
use rasa_lending_platform_sm.Prelude.Result.{Result, ok, ◌>>=◌, ◌>>◌, guard, assertion_failed}
use rasa_lending_platform_sm.WadRayMath.{ray_div}
use rasa_lending_platform_sm.Calculations.Data.{ReserveData, UserReserveData}

-- The answers to `getReserveData`: of the data provider, the tokens and the rate strategy.
pub record ReserveAnswers : Type 0 where
  pub total_stable_debt : ℕ
  pub total_variable_debt : ℕ
  pub liquidity_rate : ℕ
  pub variable_borrow_rate : ℕ
  pub stable_borrow_rate : ℕ
  pub average_stable_borrow_rate : ℕ
  pub liquidity_index : ℕ
  pub variable_borrow_index : ℕ
  pub last_update_timestamp : ℕ
  pub accrued_to_treasury_scaled : ℕ
  pub unbacked : ℕ
  pub rs_token_address : String
  pub reserve_factor : ℕ
  pub base_stable_borrow_rate : ℕ
  pub principal_stable_debt : ℕ
  pub total_supply_last_updated : ℕ
  pub scaled_total_supply : ℕ
  pub symbol : String
  pub decimals : ℕ
  pub balance : ℕ

-- `totalDebt.eq(0) ? BigNumber.from(0) : totalDebt.rayDiv(liquidity.add(totalDebt))`.
unfoldable pub fetched_ratio : ℤ → ℤ → Result ℤ
fetched_ratio total_debt liquidity =
    if eqb_ℤ total_debt (pos 0) then ok (pos 0) else ray_div total_debt (liquidity +ℤ total_debt)

unfoldable pub get_reserve_data : String → ReserveAnswers → Result ReserveData
get_reserve_data reserve a = do
  let available = pos a.balance
  let total = available +ℤ pos a.unbacked
  let total_debt = pos a.total_stable_debt +ℤ pos a.total_variable_debt
  borrow_ratio ← fetched_ratio total_debt available
  supply_ratio ← fetched_ratio total_debt total
  guard (leb_ℤ supply_ratio borrow_ratio) assertion_failed
  ok (record {
    reserve_factor = some (pos a.reserve_factor);
    unbacked = some (pos a.unbacked);
    accrued_to_treasury_scaled = some (pos a.accrued_to_treasury_scaled);
    available_liquidity = some available;
    total_liquidity = some total;
    borrow_usage_ratio = some borrow_ratio;
    supply_usage_ratio = some supply_ratio;
    total_stable_debt = some (pos a.total_stable_debt);
    total_variable_debt = some (pos a.total_variable_debt);
    liquidity_rate = some (pos a.liquidity_rate);
    variable_borrow_rate = some (pos a.variable_borrow_rate);
    stable_borrow_rate = some (pos a.stable_borrow_rate);
    average_stable_borrow_rate = some (pos a.average_stable_borrow_rate);
    liquidity_index = some (pos a.liquidity_index);
    variable_borrow_index = some (pos a.variable_borrow_index);
    last_update_timestamp = some (pos a.last_update_timestamp);
    total_stable_debt_last_updated = some (pos a.total_supply_last_updated);
    principal_stable_debt = some (pos a.principal_stable_debt);
    scaled_variable_debt = some (pos a.scaled_total_supply);
    address = some reserve;
    rs_token_address = some a.rs_token_address;
    symbol = some a.symbol;
    decimals = some (pos a.decimals);
    market_stable_rate = some (pos a.base_stable_borrow_rate);
  })

-- The answers to `getUserData`.
pub record UserAnswers : Type 0 where
  pub current_rs_token_balance : ℕ
  pub current_stable_debt : ℕ
  pub current_variable_debt : ℕ
  pub principal_stable_debt : ℕ
  pub scaled_variable_debt : ℕ
  pub stable_borrow_rate : ℕ
  pub liquidity_rate : ℕ
  pub usage_as_collateral_enabled : Bool
  pub stable_rate_last_updated : ℕ
  pub scaled_rs_token_balance : ℕ
  pub wallet_balance : ℕ

unfoldable pub get_user_data : UserAnswers → UserReserveData
get_user_data a = record {
  scaled_rs_token_balance = some (pos a.scaled_rs_token_balance);
  current_rs_token_balance = some (pos a.current_rs_token_balance);
  current_stable_debt = some (pos a.current_stable_debt);
  current_variable_debt = some (pos a.current_variable_debt);
  principal_stable_debt = some (pos a.principal_stable_debt);
  scaled_variable_debt = some (pos a.scaled_variable_debt);
  stable_borrow_rate = some (pos a.stable_borrow_rate);
  liquidity_rate = some (pos a.liquidity_rate);
  usage_as_collateral_enabled = some a.usage_as_collateral_enabled;
  stable_rate_last_updated = some (pos a.stable_rate_last_updated);
  wallet_balance = some (pos a.wallet_balance);
  variable_borrow_index = none;
  principal_variable_debt = none;
}
