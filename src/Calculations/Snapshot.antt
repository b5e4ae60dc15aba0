-- ===== src/Calculations/Snapshot.antt =====
-- What `getReserveData` and `getUserData` of test-suites/helpers/utils/helpers.ts fetch: every field
-- is there, and every number is an unsigned word of a contract.
use rasa_lending_platform_sm.Prelude.{ℕ, Bool, String, none, some}
use rasa_lending_platform_sm.Prelude.Int.{pos}
use rasa_lending_platform_sm.Calculations.Data.{ReserveData, UserReserveData}

pub record Reserve : Type 0 where
  pub address : String
  pub symbol : String
  pub decimals : ℕ
  pub reserve_factor : ℕ
  pub available : ℕ
  pub total : ℕ
  pub stable : ℕ
  pub variable : ℕ
  pub principal : ℕ
  pub scaled : ℕ
  pub average_rate : ℕ
  pub variable_rate : ℕ
  pub stable_rate : ℕ
  pub supply_ratio : ℕ
  pub borrow_ratio : ℕ
  pub index : ℕ
  pub debt_index : ℕ
  pub rs_token : String
  pub market_rate : ℕ
  pub updated : ℕ
  pub stable_updated : ℕ
  pub income_rate : ℕ
  pub unbacked : ℕ
  pub accrued : ℕ

pub record Position : Type 0 where
  pub scaled : ℕ
  pub balance : ℕ
  pub stable_debt : ℕ
  pub variable_debt : ℕ
  pub principal : ℕ
  pub scaled_debt : ℕ
  pub income_rate : ℕ
  pub rate : ℕ
  pub rate_updated : ℕ
  pub collateral : Bool
  pub wallet : ℕ

abbrev pub fetched_reserve : Reserve → ReserveData
fetched_reserve r = record {
  address = some r.address;
  symbol = some r.symbol;
  decimals = some (pos r.decimals);
  reserve_factor = some (pos r.reserve_factor);
  available_liquidity = some (pos r.available);
  total_liquidity = some (pos r.total);
  total_stable_debt = some (pos r.stable);
  total_variable_debt = some (pos r.variable);
  principal_stable_debt = some (pos r.principal);
  scaled_variable_debt = some (pos r.scaled);
  average_stable_borrow_rate = some (pos r.average_rate);
  variable_borrow_rate = some (pos r.variable_rate);
  stable_borrow_rate = some (pos r.stable_rate);
  supply_usage_ratio = some (pos r.supply_ratio);
  borrow_usage_ratio = some (pos r.borrow_ratio);
  liquidity_index = some (pos r.index);
  variable_borrow_index = some (pos r.debt_index);
  rs_token_address = some r.rs_token;
  market_stable_rate = some (pos r.market_rate);
  last_update_timestamp = some (pos r.updated);
  total_stable_debt_last_updated = some (pos r.stable_updated);
  liquidity_rate = some (pos r.income_rate);
  unbacked = some (pos r.unbacked);
  accrued_to_treasury_scaled = some (pos r.accrued);
}

abbrev pub fetched_user : Position → UserReserveData
fetched_user p = record {
  scaled_rs_token_balance = some (pos p.scaled);
  current_rs_token_balance = some (pos p.balance);
  current_stable_debt = some (pos p.stable_debt);
  current_variable_debt = some (pos p.variable_debt);
  principal_stable_debt = some (pos p.principal);
  scaled_variable_debt = some (pos p.scaled_debt);
  liquidity_rate = some (pos p.income_rate);
  stable_borrow_rate = some (pos p.rate);
  stable_rate_last_updated = some (pos p.rate_updated);
  usage_as_collateral_enabled = some p.collateral;
  wallet_balance = some (pos p.wallet);
  variable_borrow_index = none;
  principal_variable_debt = none;
}
