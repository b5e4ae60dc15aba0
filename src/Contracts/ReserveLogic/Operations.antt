-- ===== src/Contracts/ReserveLogic/Operations.antt =====
-- contracts/protocol/libraries/logic/ReserveLogic.sol: the other functions of the library, which read
-- the normalized indexes, start a reserve, add to its liquidity index and set its rates.
use rasa_lending_platform_sm.Prelude.{ℕ, Option, none, some, ◌==◌, if◌then◌else◌}
use rasa_lending_platform_sm.WadRayMath.{ray}
use rasa_lending_platform_sm.Contracts.WadRayMath.{ray_mul, ray_div, wad_to_ray}
use rasa_lending_platform_sm.Contracts.MathUtils.{
  checked_add, ◌>>=◌, calculate_linear_interest, calculate_compounded_interest,
}
use rasa_lending_platform_sm.Contracts.InterestRates.{Strategy, calculate_interest_rates}
use rasa_lending_platform_sm.Contracts.ReserveLogic.{StoredReserve, ReserveCache, to_uint128}

unfoldable pub get_normalized_income : StoredReserve → ℕ → Option ℕ
get_normalized_income reserve now =
    if reserve.last_update_timestamp == now then some reserve.liquidity_index else (do
      interest ←
          calculate_linear_interest reserve.current_liquidity_rate reserve.last_update_timestamp now
      ray_mul interest reserve.liquidity_index)

unfoldable pub get_normalized_debt : StoredReserve → ℕ → Option ℕ
get_normalized_debt reserve now =
    if reserve.last_update_timestamp == now then some reserve.variable_borrow_index else (do
      interest ←
          calculate_compounded_interest reserve.current_variable_borrow_rate
            reserve.last_update_timestamp now
      ray_mul interest reserve.variable_borrow_index)

-- The next liquidity index, with the reserve that holds it.
unfoldable pub cumulate_to_liquidity_index : StoredReserve → ℕ → ℕ → Option (StoredReserve × ℕ)
cumulate_to_liquidity_index reserve total_liquidity amount = do
  amount_rays ← wad_to_ray amount
  liquidity_rays ← wad_to_ray total_liquidity
  share ← ray_div amount_rays liquidity_rays
  factor ← checked_add share ray
  result ← ray_mul factor reserve.liquidity_index
  stored ← to_uint128 result
  some (record reserve { liquidity_index = stored }, result)

unfoldable pub init : StoredReserve → ℕ → ℕ → ℕ → ℕ → Option StoredReserve
init reserve rs_token stable_debt_token variable_debt_token strategy =
    if reserve.rs_token_address == 0
    then some (record reserve {
      liquidity_index = ray;
      variable_borrow_index = ray;
      rs_token_address = rs_token;
      stable_debt_token_address = stable_debt_token;
      variable_debt_token_address = variable_debt_token;
      interest_rate_strategy_address = strategy;
    })
    else none

-- The rates after an action; `balance` is that of the RSToken in the underlying asset.
unfoldable pub update_interest_rates :
    Strategy → ℕ → StoredReserve → ReserveCache → ℕ → ℕ → Option StoredReserve
update_interest_rates strategy balance reserve cache liquidity_added liquidity_taken = do
  total_variable_debt ← ray_mul cache.next_scaled_variable_debt cache.next_variable_borrow_index
  rates ← calculate_interest_rates strategy (record {
    unbacked = reserve.unbacked;
    liquidity_added = liquidity_added;
    liquidity_taken = liquidity_taken;
    total_stable_debt = cache.next_total_stable_debt;
    total_variable_debt = total_variable_debt;
    average_stable_borrow_rate = cache.next_avg_stable_borrow_rate;
    reserve_factor = cache.reserve_factor;
    balance = balance;
  })
  liquidity_rate ← to_uint128 (rates.0)
  stable_rate ← to_uint128 (rates.1)
  variable_rate ← to_uint128 (rates.2)
  some (record reserve {
    current_liquidity_rate = liquidity_rate;
    current_stable_borrow_rate = stable_rate;
    current_variable_borrow_rate = variable_rate;
  })
