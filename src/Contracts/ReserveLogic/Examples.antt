-- ===== src/Contracts/ReserveLogic/Examples.antt =====
-- The update and the deposit of contracts/protocol/libraries/logic/ReserveLogic.sol at a small reserve:
-- a day after its last update it has debts of both kinds.
use rasa_lending_platform_sm.Prelude.{◌*◌, ◌^◌, ◌≡◌, refl, some, arith}
use rasa_lending_platform_sm.Prelude.Int.{pos}
use rasa_lending_platform_sm.Prelude.Result.{ok}
use rasa_lending_platform_sm.WadRayMath.{ray}
use rasa_lending_platform_sm.Calculations.Data.{ReserveData, empty_reserve, empty_user}
use rasa_lending_platform_sm.Calculations.Snapshot.{Reserve, fetched_reserve}
use rasa_lending_platform_sm.Calculations.State.{update_state}
use rasa_lending_platform_sm.Calculations.Liquidity.{
  calc_expected_reserve_data_after_deposit, calc_expected_reserve_data_after_withdraw,
}
use rasa_lending_platform_sm.Contracts.WadRayMath.{ray_mul, ray_div, wad_to_ray, percent_mul}
use rasa_lending_platform_sm.Contracts.MathUtils.{
  checked_add, checked_sub, checked_mul, calculate_linear_interest, compound_terms,
  calculate_compounded_interest,
}
use rasa_lending_platform_sm.Contracts.InterestRates.{
  get_base_stable_borrow_rate, get_ratios, rate_above, rate_below, add_slopes, add_excess_offset,
  get_overall_borrow_rate, calculate_interest_rates,
}
use rasa_lending_platform_sm.Contracts.InterestRates.Examples.{
  strategy, reserve, market, base_rate, half_listed,
}
use rasa_lending_platform_sm.Contracts.ReserveLogic.{
  StoredReserve, ReserveCache, StableDebtToken, calc_total_supply, get_supply_data, to_uint128,
  cache_with, cached, grown_liquidity_index, grown_variable_borrow_index, store_index,
  update_indexes, mint_to_treasury, accrue_to_treasury, updated_state,
}
use rasa_lending_platform_sm.Contracts.ReserveLogic.Operations.{update_interest_rates}
use rasa_lending_platform_sm.Contracts.ReserveLogic.Parts.{IsStored, fetched, updated_as}
use rasa_lending_platform_sm.Contracts.ReserveLogic.Agreement.{after_of, updated_state_agrees}
use rasa_lending_platform_sm.Contracts.ReserveLogic.Rates.{IsForeseen, with_stored_rates}
use rasa_lending_platform_sm.Contracts.ReserveLogic.Liquidity.{
  IsListed, deposit-IsForeseen, withdraw-IsForeseen,
}
use rasa_lending_platform_sm.Contracts.ReserveLogic.Returns.{HasRoom, updated_state-returns}
use rasa_lending_platform_sm.Calculations.Interest.Closed.{binomial_interest}

abbrev stored : StoredReserve
stored = record {
  reserve_factor = 1000;
  liquidity_index = ray;
  current_liquidity_rate = 2 * 10 ^ 25;
  variable_borrow_index = ray;
  current_variable_borrow_rate = 5 * 10 ^ 25;
  current_stable_borrow_rate = 6 * 10 ^ 25;
  last_update_timestamp = 100;
  rs_token_address = 1;
  stable_debt_token_address = 2;
  variable_debt_token_address = 3;
  interest_rate_strategy_address = 4;
  accrued_to_treasury = 0;
  unbacked = 0;
}

abbrev stable_debt : StableDebtToken
stable_debt = record {
  principal_supply = 50 * 10 ^ 18;
  avg_stable_rate = 6 * 10 ^ 25;
  total_supply_timestamp = 50;
}

-- What the tests fetch beside the fields of the stored reserve.
abbrev answers : Reserve
answers = record {
  address = "0xdai";
  symbol = "DAI";
  decimals = 18;
  reserve_factor = 1000;
  available = 400 * 10 ^ 18;
  total = 400 * 10 ^ 18;
  stable = 50 * 10 ^ 18;
  variable = 450 * 10 ^ 18;
  principal = 50 * 10 ^ 18;
  scaled = 450 * 10 ^ 18;
  average_rate = 6 * 10 ^ 25;
  variable_rate = 5 * 10 ^ 25;
  stable_rate = 6 * 10 ^ 25;
  supply_ratio = 5 * 10 ^ 26;
  borrow_ratio = 5 * 10 ^ 26;
  index = ray;
  debt_index = ray;
  rs_token = "0xrsdai";
  market_rate = 5 * 10 ^ 25;
  updated = 100;
  stable_updated = 50;
  income_rate = 2 * 10 ^ 25;
  unbacked = 0;
  accrued = 0;
}

abbrev loaded : ReserveCache
loaded = record {
  curr_scaled_variable_debt = 450 * 10 ^ 18;
  next_scaled_variable_debt = 450 * 10 ^ 18;
  curr_principal_stable_debt = 50 * 10 ^ 18;
  curr_avg_stable_borrow_rate = 6 * 10 ^ 25;
  curr_total_stable_debt = 50008567134164916050;
  next_avg_stable_borrow_rate = 6 * 10 ^ 25;
  next_total_stable_debt = 50008567134164916050;
  curr_liquidity_index = ray;
  next_liquidity_index = ray;
  curr_variable_borrow_index = ray;
  next_variable_borrow_index = ray;
  curr_liquidity_rate = 2 * 10 ^ 25;
  curr_variable_borrow_rate = 5 * 10 ^ 25;
  reserve_factor = 1000;
  reserve_last_update_timestamp = 100;
  stable_debt_last_update_timestamp = 50;
}

abbrev updated : StoredReserve × ReserveCache
updated =
    after_of stored loaded 1000057077625570776255707762 1000142704244976247962254406
      7277513410335314 90100

stored-IsStored : IsStored stored stable_debt 90100
stored-IsStored = record {
  index_fits = omega arith;
  borrow_index_fits = omega arith;
  liquidity_rate_fits = omega arith;
  variable_rate_fits = omega arith;
  stable_rate_fits = omega arith;
  now_fits = omega arith;
  updated_before = omega arith;
  stable_updated_le = omega arith;
}

loads : cached stored (450 * 10 ^ 18) stable_debt 90100 ≡ some loaded
unfolding cached get_supply_data calc_total_supply cache_with calculate_compounded_interest
    compound_terms ray_mul checked_add checked_sub checked_mul
loads = refl

updates : updated_state stored loaded 90100 ≡ some updated
unfolding updated_state update_indexes grown_liquidity_index grown_variable_borrow_index store_index
    accrue_to_treasury mint_to_treasury to_uint128 calculate_linear_interest
    calculate_compounded_interest compound_terms ray_mul ray_div percent_mul checked_add checked_sub
    checked_mul
updates = refl

abbrev priced : StoredReserve
priced =
    with_stored_rates (updated.0)
      (12826710915801161061786301, 53125227433585227045175179, 25001819468681816361401434)

prices :
    update_interest_rates strategy answers.available (updated.0) (updated.1) (100 * 10 ^ 18) 0
    ≡ some priced
unfolding update_interest_rates to_uint128 calculate_interest_rates get_base_stable_borrow_rate
    get_ratios rate_above rate_below add_slopes add_excess_offset get_overall_borrow_rate ray_mul
    ray_div wad_to_ray percent_mul checked_add checked_sub
prices = refl

updated_state_agrees_example :
    (update_state
        (fetched_reserve (fetched answers stored (450 * 10 ^ 18) stable_debt))
        empty_reserve
        (pos 90100)
      ≡ ok (updated_as empty_reserve updated))
    × (updated.0.last_update_timestamp ≡ 90100)
updated_state_agrees_example =
    updated_state_agrees answers empty_reserve stored stable_debt (450 * 10 ^ 18) 90100 loaded
      updated stored-IsStored (λ e. absurd (omega arith)) refl loads updates

stored-IsListed : IsListed market answers stored strategy
stored-IsListed = record {
  name = "half";
  params = reserve;
  is_sound = (omega arith, omega arith);
  found = half_listed;
  strategy_eq = refl;
  factor_eq = refl;
  base_eq = base_rate;
}

deposit-IsForeseen_example :
    (expected : ReserveData) × (calc_expected_reserve_data_after_deposit market
        (pos (100 * 10 ^ 18))
        (fetched_reserve (fetched answers stored (450 * 10 ^ 18) stable_debt))
        (pos 90100)
      ≡ ok expected)
    × IsForeseen expected priced
deposit-IsForeseen_example =
    deposit-IsForeseen market strategy answers stored stable_debt (450 * 10 ^ 18) 90100
      (100 * 10 ^ 18) loaded updated priced stored-IsStored stored-IsListed
      (λ e. absurd (omega arith)) refl loads updates prices

abbrev priced_lower : StoredReserve
priced_lower =
    with_stored_rates (updated.0)
      (19197265483438049573739718, 53906463215106768262301881, 31251705720854146098415046)

prices_withdrawal :
    update_interest_rates strategy answers.available (updated.0) (updated.1) 0 (100 * 10 ^ 18)
    ≡ some priced_lower
unfolding update_interest_rates to_uint128 calculate_interest_rates get_base_stable_borrow_rate
    get_ratios rate_above rate_below add_slopes add_excess_offset get_overall_borrow_rate ray_mul
    ray_div wad_to_ray percent_mul checked_add checked_sub
prices_withdrawal = refl

withdraw-IsForeseen_example :
    (expected : ReserveData) × (calc_expected_reserve_data_after_withdraw market
        (pos (100 * 10 ^ 18))
        (fetched_reserve (fetched answers stored (450 * 10 ^ 18) stable_debt))
        empty_user
        (pos 90100)
      ≡ ok expected)
    × IsForeseen expected priced_lower
withdraw-IsForeseen_example =
    withdraw-IsForeseen market strategy answers stored stable_debt (450 * 10 ^ 18) 90100 empty_user
      (100 * 10 ^ 18) loaded updated priced_lower stored-IsStored stored-IsListed
      (λ e. absurd (omega arith)) refl (omega arith) (ground arith) loads updates prices_withdrawal

stored-HasRoom : HasRoom stored stable_debt (450 * 10 ^ 18) 90100
unfolding binomial_interest
stored-HasRoom = record {
  index_ge = omega arith;
  index_lt = omega arith;
  borrow_index_lt = omega arith;
  variable_lt = omega arith;
  stable_lt = omega arith;
  accrued_lt = omega arith;
  factor_le = omega arith;
}

updated_state-returns_example :
    (cache : ReserveCache) × (after : StoredReserve × ReserveCache) × (cached stored
        (450 * 10 ^ 18)
        stable_debt
        90100
      ≡ some cache)
    × (updated_state stored cache 90100 ≡ some after)
updated_state-returns_example =
    updated_state-returns stored stable_debt (450 * 10 ^ 18) 90100 stored-IsStored stored-HasRoom
