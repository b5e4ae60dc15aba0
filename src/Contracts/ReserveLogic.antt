-- ===== src/Contracts/ReserveLogic.antt =====
-- contracts/protocol/libraries/logic/ReserveLogic.sol: the indexes, the treasury and the rates of a
-- stored reserve, in words; a revert is `none`. The timestamp of the block is an argument, of at most
-- 40 bits as the code casts it. What the debt tokens answer comes from
-- contracts/protocol/tokenization/StableDebtToken.sol and a number, the scaled variable debt.
pub mod Operations
pub mod Indexes
pub mod Treasury
pub mod StableDebt
pub mod Parts
pub mod Agreement
pub mod Rates
pub mod Liquidity
pub mod Room
pub mod Returns
mod Examples
use mathlib.Core.Option
use rasa_lending_platform_sm.Prelude.{
  ℕ, ◌+◌, ◌-◌, ◌%◌, ◌^◌, Bool, Option, none, some, leb, ◌==◌, if◌then◌else◌,
}
use rasa_lending_platform_sm.WadRayMath.{ray}
use rasa_lending_platform_sm.Contracts.WadRayMath.{ray_mul, ray_div, wad_to_ray, percent_mul}
use rasa_lending_platform_sm.Contracts.MathUtils.{
  checked_add, checked_sub, ◌>>=◌, calculate_linear_interest, calculate_compounded_interest,
}
use rasa_lending_platform_sm.Contracts.InterestRates.{Strategy, Params, calculate_interest_rates}

-- The fields of `DataTypes.ReserveData` that the library reads and writes, with the reserve factor of
-- its configuration.
pub record StoredReserve : Type 0 where
  pub reserve_factor : ℕ
  pub liquidity_index : ℕ
  pub current_liquidity_rate : ℕ
  pub variable_borrow_index : ℕ
  pub current_variable_borrow_rate : ℕ
  pub current_stable_borrow_rate : ℕ
  pub last_update_timestamp : ℕ
  pub rs_token_address : ℕ
  pub stable_debt_token_address : ℕ
  pub variable_debt_token_address : ℕ
  pub interest_rate_strategy_address : ℕ
  pub accrued_to_treasury : ℕ
  pub unbacked : ℕ

-- The numbers of `DataTypes.ReserveCache`.
pub record ReserveCache : Type 0 where
  pub curr_scaled_variable_debt : ℕ
  pub next_scaled_variable_debt : ℕ
  pub curr_principal_stable_debt : ℕ
  pub curr_avg_stable_borrow_rate : ℕ
  pub curr_total_stable_debt : ℕ
  pub next_avg_stable_borrow_rate : ℕ
  pub next_total_stable_debt : ℕ
  pub curr_liquidity_index : ℕ
  pub next_liquidity_index : ℕ
  pub curr_variable_borrow_index : ℕ
  pub next_variable_borrow_index : ℕ
  pub curr_liquidity_rate : ℕ
  pub curr_variable_borrow_rate : ℕ
  pub reserve_factor : ℕ
  pub reserve_last_update_timestamp : ℕ
  pub stable_debt_last_update_timestamp : ℕ

-- The state of the stable debt token: `super.totalSupply()`, `_avgStableRate` and
-- `_totalSupplyTimestamp`.
pub record StableDebtToken : Type 0 where
  pub principal_supply : ℕ
  pub avg_stable_rate : ℕ
  pub total_supply_timestamp : ℕ

unfoldable pub calc_total_supply : StableDebtToken → ℕ → Option ℕ
calc_total_supply token now = if token.principal_supply == 0 then some 0 else (do
  interest ← calculate_compounded_interest token.avg_stable_rate token.total_supply_timestamp now
  ray_mul token.principal_supply interest)

-- The four numbers of `getSupplyData`.
unfoldable pub get_supply_data : StableDebtToken → ℕ → Option (ℕ × ℕ × ℕ × ℕ)
get_supply_data token now = do
  total ← calc_total_supply token now
  some (token.principal_supply, total, token.avg_stable_rate, token.total_supply_timestamp)

abbrev max_uint128 : ℕ
max_uint128 = 2 ^ 128 - 1

-- `toUint128`, and an addition of numbers of 128 bits.
unfoldable pub to_uint128 : ℕ → Option ℕ
to_uint128 value = if leb value max_uint128 then some value else none

-- The cache, with the four numbers of the stable debt token.
unfoldable pub cache_with : StoredReserve → ℕ → ℕ × ℕ × ℕ × ℕ → ReserveCache
cache_with reserve scaled_total_supply supply = record {
  curr_scaled_variable_debt = scaled_total_supply;
  next_scaled_variable_debt = scaled_total_supply;
  curr_principal_stable_debt = supply.0;
  curr_avg_stable_borrow_rate = supply.2;
  curr_total_stable_debt = supply.1;
  next_avg_stable_borrow_rate = supply.2;
  next_total_stable_debt = supply.1;
  curr_liquidity_index = reserve.liquidity_index;
  next_liquidity_index = reserve.liquidity_index;
  curr_variable_borrow_index = reserve.variable_borrow_index;
  next_variable_borrow_index = reserve.variable_borrow_index;
  curr_liquidity_rate = reserve.current_liquidity_rate;
  curr_variable_borrow_rate = reserve.current_variable_borrow_rate;
  reserve_factor = reserve.reserve_factor;
  reserve_last_update_timestamp = reserve.last_update_timestamp;
  stable_debt_last_update_timestamp = supply.3;
}

unfoldable pub cached : StoredReserve → ℕ → StableDebtToken → ℕ → Option ReserveCache
cached reserve scaled_total_supply token now = do
  supply ← get_supply_data token now
  some (cache_with reserve scaled_total_supply supply)

-- The next indexes: one only grows where there is income, the other where there is variable debt.
unfoldable pub grown_liquidity_index : ReserveCache → ℕ → Option ℕ
grown_liquidity_index cache now =
    if cache.curr_liquidity_rate == 0 then some cache.next_liquidity_index else (do
      interest ←
          calculate_linear_interest cache.curr_liquidity_rate cache.reserve_last_update_timestamp
            now
      ray_mul interest cache.curr_liquidity_index)

unfoldable pub grown_variable_borrow_index : ReserveCache → ℕ → Option ℕ
grown_variable_borrow_index cache now =
    if cache.curr_scaled_variable_debt == 0 then some cache.next_variable_borrow_index else (do
      interest ←
          calculate_compounded_interest cache.curr_variable_borrow_rate
            cache.reserve_last_update_timestamp now
      ray_mul interest cache.curr_variable_borrow_index)

-- An index is stored where it may have grown.
unfoldable pub store_index : Bool → ℕ → ℕ → Option ℕ
store_index unchanged stored index = if unchanged then some stored else to_uint128 index

unfoldable pub update_indexes :
    StoredReserve → ReserveCache → ℕ → Option (StoredReserve × ReserveCache)
update_indexes reserve cache now = do
  index ← grown_liquidity_index cache now
  stored_index ← store_index (cache.curr_liquidity_rate == 0) reserve.liquidity_index index
  borrow_index ← grown_variable_borrow_index cache now
  stored_borrow_index ←
      store_index (cache.curr_scaled_variable_debt == 0) reserve.variable_borrow_index borrow_index
  some (
    record reserve { liquidity_index = stored_index; variable_borrow_index = stored_borrow_index },
    record cache { next_liquidity_index = index; next_variable_borrow_index = borrow_index },
  )

-- `reserve.accruedToTreasury` after `amount` has been minted.
unfoldable pub mint_to_treasury : ℕ → ℕ → ℕ → Option ℕ
mint_to_treasury accrued amount next_liquidity_index = if amount == 0 then some accrued else (do
  scaled ← ray_div amount next_liquidity_index
  minted ← to_uint128 scaled
  to_uint128 (accrued + minted))

-- `reserve.accruedToTreasury` after `_accrueToTreasury`.
unfoldable pub accrue_to_treasury : ℕ → ReserveCache → Option ℕ
accrue_to_treasury accrued cache = if cache.reserve_factor == 0 then some accrued else (do
  prev_variable ← ray_mul cache.curr_scaled_variable_debt cache.curr_variable_borrow_index
  curr_variable ← ray_mul cache.curr_scaled_variable_debt cache.next_variable_borrow_index
  interest ←
      calculate_compounded_interest cache.curr_avg_stable_borrow_rate
        cache.stable_debt_last_update_timestamp cache.reserve_last_update_timestamp
  prev_stable ← ray_mul cache.curr_principal_stable_debt interest
  total ← checked_add curr_variable cache.curr_total_stable_debt
  less_variable ← checked_sub total prev_variable
  total_debt_accrued ← checked_sub less_variable prev_stable
  amount_to_mint ← percent_mul total_debt_accrued cache.reserve_factor
  mint_to_treasury accrued amount_to_mint cache.next_liquidity_index)

unfoldable pub updated_state :
    StoredReserve → ReserveCache → ℕ → Option (StoredReserve × ReserveCache)
updated_state reserve cache now =
    if reserve.last_update_timestamp == now then some (reserve, cache) else (do
      indexed ← update_indexes reserve cache now
      accrued ← accrue_to_treasury (indexed.0.accrued_to_treasury) (indexed.1)
      some (
        record (indexed.0) { accrued_to_treasury = accrued; last_update_timestamp = now },
        indexed.1,
      ))
