-- ===== src/Scenario/Examples/SmallChain.antt =====
-- A small chain with the one reserve DAI, and no debt: its first user supplies, and everything else is
-- refused.
use rasa_lending_platform_sm.Calculations.Examples.Market.{listed}
use rasa_lending_platform_sm.Helpers.{ReserveAnswers, UserAnswers}
use rasa_lending_platform_sm.Prelude.{String, false, ltb, none, some, zero, ℕ, ◌*◌, ◌+◌, ◌-◌, ◌^◌}
use rasa_lending_platform_sm.Prelude.Int.{pos, ℤ, ◌*ℤ◌}
use rasa_lending_platform_sm.Prelude.Result.{Result, err, malformed, ok}
use rasa_lending_platform_sm.Scenario.Chain.{Call, Chain, Outcome, Receipt, mined, refused}
use rasa_lending_platform_sm.Scenario.ParseInt.{parse_int}

-- The answers of the reserve before and after the supply of 1,000.
abbrev pub dai_answers : ℕ → ReserveAnswers
dai_answers n = record {
  total_stable_debt = 0;
  total_variable_debt = 0;
  liquidity_rate = 0;
  variable_borrow_rate = 0;
  stable_borrow_rate = 15 * 10 ^ 24;
  average_stable_borrow_rate = 0;
  liquidity_index = 10 ^ 27;
  variable_borrow_index = 10 ^ 27;
  last_update_timestamp = 100 + n;
  accrued_to_treasury_scaled = 0;
  unbacked = 0;
  rs_token_address = "0xrsdai";
  reserve_factor = 1000;
  base_stable_borrow_rate = 15 * 10 ^ 24;
  principal_stable_debt = 0;
  total_supply_last_updated = 0;
  scaled_total_supply = 0;
  symbol = "DAI";
  decimals = 18;
  balance = n * (1000 * 10 ^ 18);
}

abbrev pub supplier_answers : ℕ → UserAnswers
supplier_answers n = record {
  current_rs_token_balance = n * (1000 * 10 ^ 18);
  current_stable_debt = 0;
  current_variable_debt = 0;
  principal_stable_debt = 0;
  scaled_variable_debt = 0;
  stable_borrow_rate = 0;
  liquidity_rate = 0;
  usage_as_collateral_enabled = ltb 0 n;
  stable_rate_last_updated = 0;
  scaled_rs_token_balance = n * (1000 * 10 ^ 18);
  wallet_balance = 5000 * 10 ^ 18 - n * (1000 * 10 ^ 18);
}

abbrev pub receipt : Receipt
receipt = record {
  block_number = some 7;
  transaction_hash = some "0xhash";
  cumulative_gas_used = some (pos 21000);
  effective_gas_price = pos 1;
}

abbrev pub answer : ℕ → String → Call → Outcome ℕ
answer zero sender (Call.deposit reserve amount on_behalf_of value) = mined receipt 1
answer zero sender (Call.supply_with_permit reserve amount on_behalf_of deadline signature value) =
    mined receipt 1
answer s sender call = refused "not supported" s

abbrev pub read_number : String → Result ℤ
read_number text = elim (parse_int text) [ none ↦ err malformed | some n ↦ ok n ]

abbrev pub units : String → ℕ → Result ℤ
units text places = elim (parse_int text) [
  | none ↦ err malformed
  | some n ↦ ok (n *ℤ pos (10 ^ places))
]

abbrev pub small_chain : Chain
small_chain = record {
  State = ℕ;
  testnet_token = λ s symbol. some "0xdai";
  decimals = λ s token. 18;
  reserve_answers = λ s reserve. dai_answers s;
  user_answers = λ s reserve user sender. supplier_answers s;
  stable_debt_token = λ s reserve. "0xstable";
  variable_debt_token = λ s reserve. "0xvariable";
  borrow_allowance = λ s token user receiver. pos 0;
  nonce = λ s token owner. 0;
  pool = λ s. "0xpool";
  chain_id = λ s. 31337;
  latest_timestamp = λ s. pos (100 + s);
  block_timestamp = λ s n. pos (100 + s);
  gas_price = λ s hash. none;
  send = answer;
  mine_at = λ s time. s;
  parse_units = units;
  big_number = read_number;
  sign = λ key params. "0xsignature";
  reserves_params = listed;
  skip_integrity_check = false;
}
