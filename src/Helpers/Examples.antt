-- ===== src/Helpers/Examples.antt =====
-- The data of a reserve of test-suites/helpers/utils/helpers.ts from concrete answers.
use rasa_lending_platform_sm.Prelude.{◌*◌, ◌^◌, ◌≡◌}
use rasa_lending_platform_sm.Prelude.Result.{ok}
use rasa_lending_platform_sm.Calculations.Snapshot.{Reserve, fetched_reserve}
use rasa_lending_platform_sm.Calculations.Actions.Frame.{IsCoherent}
use rasa_lending_platform_sm.Helpers.{ReserveAnswers, get_reserve_data}
use rasa_lending_platform_sm.Helpers.Coherence.{get_reserve_data-IsCoherent}

abbrev weth_answers : ReserveAnswers
weth_answers = record {
  total_stable_debt = 10 ^ 18;
  total_variable_debt = 3 * 10 ^ 18;
  liquidity_rate = 10 ^ 25;
  variable_borrow_rate = 3 * 10 ^ 25;
  stable_borrow_rate = 5 * 10 ^ 25;
  average_stable_borrow_rate = 5 * 10 ^ 25;
  liquidity_index = 101 * 10 ^ 25;
  variable_borrow_index = 103 * 10 ^ 25;
  last_update_timestamp = 100;
  accrued_to_treasury_scaled = 7;
  unbacked = 10 ^ 17;
  rs_token_address = "0xrsweth";
  reserve_factor = 1000;
  base_stable_borrow_rate = 5 * 10 ^ 25;
  principal_stable_debt = 10 ^ 18;
  total_supply_last_updated = 90;
  scaled_total_supply = 29 * 10 ^ 17;
  symbol = "WETH";
  decimals = 18;
  balance = 5 * 10 ^ 18;
}

get_reserve_data-IsCoherent_example :
    (r : Reserve) × (get_reserve_data "0xweth" weth_answers ≡ ok (fetched_reserve r))
    × IsCoherent (fetched_reserve r)
get_reserve_data-IsCoherent_example = get_reserve_data-IsCoherent "0xweth" weth_answers
