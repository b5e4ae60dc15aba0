-- ===== src/Calculations/Data.antt =====
-- `ReserveData` and `UserReserveData` of test-suites/helpers/utils/interfaces/index.ts. The code
-- starts from `<ReserveData>{}`, so a field may be `undefined`, which is `none`.
use rasa_lending_platform_sm.Prelude.{Bool, Option, none, String}
use rasa_lending_platform_sm.Prelude.Int.{ℤ}

pub record ReserveData : Type 0 where
  pub address : Option String
  pub symbol : Option String
  pub decimals : Option ℤ
  pub reserve_factor : Option ℤ
  pub available_liquidity : Option ℤ
  pub total_liquidity : Option ℤ
  pub total_stable_debt : Option ℤ
  pub total_variable_debt : Option ℤ
  pub principal_stable_debt : Option ℤ
  pub scaled_variable_debt : Option ℤ
  pub average_stable_borrow_rate : Option ℤ
  pub variable_borrow_rate : Option ℤ
  pub stable_borrow_rate : Option ℤ
  pub supply_usage_ratio : Option ℤ
  pub borrow_usage_ratio : Option ℤ
  pub liquidity_index : Option ℤ
  pub variable_borrow_index : Option ℤ
  pub rs_token_address : Option String
  pub market_stable_rate : Option ℤ
  pub last_update_timestamp : Option ℤ
  pub total_stable_debt_last_updated : Option ℤ
  pub liquidity_rate : Option ℤ
  pub unbacked : Option ℤ
  pub accrued_to_treasury_scaled : Option ℤ

-- `principalVariableDebt` is a key that the interface allows and the code writes.
pub record UserReserveData : Type 0 where
  pub scaled_rs_token_balance : Option ℤ
  pub current_rs_token_balance : Option ℤ
  pub current_stable_debt : Option ℤ
  pub current_variable_debt : Option ℤ
  pub principal_stable_debt : Option ℤ
  pub scaled_variable_debt : Option ℤ
  pub liquidity_rate : Option ℤ
  pub stable_borrow_rate : Option ℤ
  pub stable_rate_last_updated : Option ℤ
  pub usage_as_collateral_enabled : Option Bool
  pub wallet_balance : Option ℤ
  pub variable_borrow_index : Option ℤ
  pub principal_variable_debt : Option ℤ

-- `<ReserveData>{}`.
abbrev pub empty_reserve : ReserveData
empty_reserve = record {
  address = none;
  symbol = none;
  decimals = none;
  reserve_factor = none;
  available_liquidity = none;
  total_liquidity = none;
  total_stable_debt = none;
  total_variable_debt = none;
  principal_stable_debt = none;
  scaled_variable_debt = none;
  average_stable_borrow_rate = none;
  variable_borrow_rate = none;
  stable_borrow_rate = none;
  supply_usage_ratio = none;
  borrow_usage_ratio = none;
  liquidity_index = none;
  variable_borrow_index = none;
  rs_token_address = none;
  market_stable_rate = none;
  last_update_timestamp = none;
  total_stable_debt_last_updated = none;
  liquidity_rate = none;
  unbacked = none;
  accrued_to_treasury_scaled = none;
}

-- `<UserReserveData>{}`.
abbrev pub empty_user : UserReserveData
empty_user = record {
  scaled_rs_token_balance = none;
  current_rs_token_balance = none;
  current_stable_debt = none;
  current_variable_debt = none;
  principal_stable_debt = none;
  scaled_variable_debt = none;
  liquidity_rate = none;
  stable_borrow_rate = none;
  stable_rate_last_updated = none;
  usage_as_collateral_enabled = none;
  wallet_balance = none;
  variable_borrow_index = none;
  principal_variable_debt = none;
}
