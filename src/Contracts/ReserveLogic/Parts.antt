-- ===== src/Contracts/ReserveLogic/Parts.antt =====
-- The steps of `updateState` in test-suites/helpers/utils/calculations.ts against those in
-- contracts/protocol/libraries/logic/ReserveLogic.sol, on what the tests fetch of a stored reserve.
use rasa_lending_platform_sm.Prelude.{
  ℕ, ◌^◌, ◌≤◌, ◌<◌, ◌≡◌, refl, sym, ◌∙◌, ap, ap₂, Bool, true, false, some, Option, arith, ◌==◌,
  if◌then◌else◌,
}
use rasa_lending_platform_sm.Prelude.Int.{pos}
use rasa_lending_platform_sm.Prelude.Result.{ok}
use rasa_lending_platform_sm.WadRayMath
use rasa_lending_platform_sm.WadRayMath.{ray, half_ray}
use rasa_lending_platform_sm.Calculations.Data.{ReserveData}
use rasa_lending_platform_sm.Calculations.Snapshot.{Reserve, fetched_reserve}
use rasa_lending_platform_sm.Calculations.State.{
  calc_expected_liquidity_index, calc_expected_variable_borrow_index,
  calc_expected_total_variable_debt, total_debt_accrued, calc_expected_accrue_to_treasury,
  update_state,
}
use rasa_lending_platform_sm.Contracts.InterestRates.Calls.{>>=-eq-some}
use rasa_lending_platform_sm.Contracts.InterestRates.Ratios.{some_path}
use rasa_lending_platform_sm.Contracts.ReserveLogic.{
  StoredReserve, ReserveCache, StableDebtToken, calc_total_supply, cache_with,
  grown_liquidity_index, grown_variable_borrow_index, store_index, update_indexes,
  accrue_to_treasury,
}
use rasa_lending_platform_sm.Contracts.ReserveLogic.Indexes.{
  liquidity_index-eq-some, variable_borrow_index-eq-some,
}
use rasa_lending_platform_sm.Contracts.ReserveLogic.Treasury.{
  to_uint128-eq-some, accrue_to_treasury-eq-some,
}
use rasa_lending_platform_sm.Contracts.ReserveLogic.StableDebt.{total_stable-eq-some}

-- What the types of the stored fields say, with an update before `now`.
pub record IsStored (reserve : StoredReserve) (token : StableDebtToken) (now : ℕ) : Type 0 where
  pub index_fits : reserve.liquidity_index < 2 ^ 128
  pub borrow_index_fits : reserve.variable_borrow_index < 2 ^ 128
  pub liquidity_rate_fits : reserve.current_liquidity_rate < 2 ^ 128
  pub variable_rate_fits : reserve.current_variable_borrow_rate < 2 ^ 128
  pub stable_rate_fits : token.avg_stable_rate < 2 ^ 128
  pub now_fits : now < 2 ^ 40
  pub updated_before : reserve.last_update_timestamp < now
  pub stable_updated_le : token.total_supply_timestamp ≤ reserve.last_update_timestamp

-- What the tests fetch of a stored reserve and its debt tokens; the other fields are `answers`.
abbrev pub fetched : Reserve → StoredReserve → ℕ → StableDebtToken → Reserve
fetched answers reserve scaled token = record answers {
  reserve_factor = reserve.reserve_factor;
  principal = token.principal_supply;
  scaled = scaled;
  average_rate = token.avg_stable_rate;
  variable_rate = reserve.current_variable_borrow_rate;
  stable_rate = reserve.current_stable_borrow_rate;
  index = reserve.liquidity_index;
  debt_index = reserve.variable_borrow_index;
  updated = reserve.last_update_timestamp;
  stable_updated = token.total_supply_timestamp;
  income_rate = reserve.current_liquidity_rate;
  unbacked = reserve.unbacked;
  accrued = reserve.accrued_to_treasury;
}

-- An index that is stored is the one in the cache, and fits.
store_index-eq-some :
    (b : Bool) (stored n s : ℕ) (call : Option ℕ)
    → stored < 2 ^ 128
    → (if b then some stored else call) ≡ some n
    → store_index b stored n ≡ some s
    → (s ≡ n) × (n < 2 ^ 128)
unfolding store_index
store_index-eq-some true stored n s call fits h k =
    let one : stored ≡ n = some_path h in
    let two : stored ≡ s = some_path k in (sym two ∙ one, omega arith)
store_index-eq-some false stored n s call fits h k =
    let (same, small) = to_uint128-eq-some n s k in (sym same, omega arith)

-- The reserve and the cache with new indexes.
abbrev pub indexed_with : StoredReserve → ReserveCache → ℕ → ℕ → StoredReserve × ReserveCache
indexed_with reserve cache index borrow_index = (
  record reserve { liquidity_index = index; variable_borrow_index = borrow_index },
  record cache { next_liquidity_index = index; next_variable_borrow_index = borrow_index },
)

abbrev pub supply_of : StableDebtToken → ℕ → ℕ × ℕ × ℕ × ℕ
supply_of token total =
    (token.principal_supply, total, token.avg_stable_rate, token.total_supply_timestamp)

pub update_indexes-eq-some :
    (answers : Reserve) (reserve : StoredReserve) (token : StableDebtToken) (scaled total now : ℕ)
    (indexed : StoredReserve × ReserveCache)
    → IsStored reserve token now
    → (answers.supply_ratio ≡ 0 → reserve.current_liquidity_rate ≡ 0)
    → (answers.variable == 0) ≡ (scaled == 0)
    → update_indexes reserve (cache_with reserve scaled (supply_of token total)) now ≡ some indexed
    → (index : ℕ) × (borrow_index : ℕ) × (indexed_with reserve
          (cache_with reserve scaled (supply_of token total))
          index
          borrow_index
        ≡ indexed)
      × (index < 2 ^ 128)
      × (calc_expected_liquidity_index
            (fetched_reserve (fetched answers reserve scaled token))
            (pos now)
          ≡ ok (pos index))
      × (calc_expected_variable_borrow_index
            (fetched_reserve (fetched answers reserve scaled token))
            (pos now)
          ≡ ok (pos borrow_index))
unfolding update_indexes cache_with grown_liquidity_index grown_variable_borrow_index
    calc_expected_liquidity_index calc_expected_variable_borrow_index
update_indexes-eq-some answers reserve token scaled total now indexed b usage debt h =
    let cache = cache_with reserve scaled (supply_of token total) in
    let (n, e1, h1) = >>=-eq-some (grown_liquidity_index cache now) _ h in
    let (s, e2, h2) =
      >>=-eq-some (store_index (reserve.current_liquidity_rate == 0) reserve.liquidity_index n) _
        h1 in
    let (m, e3, h3) = >>=-eq-some (grown_variable_borrow_index cache now) _ h2 in
    let (u, e4, h4) =
      >>=-eq-some (store_index (scaled == 0) reserve.variable_borrow_index m) _ h3 in
    let (same, fits) =
      store_index-eq-some (reserve.current_liquidity_rate == 0) reserve.liquidity_index n s _
        b.index_fits e1 e2 in
    let (also, _) =
      store_index-eq-some (scaled == 0) reserve.variable_borrow_index m u _ b.borrow_index_fits e3
        e4 in
    (
      n,
      m,
      ap₂
            (λ x y. (
              record reserve { liquidity_index = x; variable_borrow_index = y },
              record cache { next_liquidity_index = n; next_variable_borrow_index = m },
            ))
            (sym same) (sym also)
          ∙ some_path h4,
      fits,
      ap ok (
          liquidity_index-eq-some answers.supply_ratio reserve.current_liquidity_rate
            reserve.last_update_timestamp now reserve.liquidity_index n b.liquidity_rate_fits
            b.now_fits (omega (arith, b.updated_before)) usage e1),
      ap ok (
          variable_borrow_index-eq-some answers.variable scaled reserve.current_variable_borrow_rate
            reserve.last_update_timestamp now reserve.variable_borrow_index m b.variable_rate_fits
            b.now_fits (omega (arith, b.updated_before)) debt e3),
    )

-- The reserve that the tests expect, with the contract's numbers.
abbrev pub updated_as : ReserveData → StoredReserve × ReserveCache → ReserveData
updated_as expected after = record expected {
  liquidity_index = some (pos after.0.liquidity_index);
  variable_borrow_index = some (pos after.0.variable_borrow_index);
  total_stable_debt = some (pos after.1.curr_total_stable_debt);
  total_variable_debt = some (
      WadRayMath.ray_mul (pos after.1.curr_scaled_variable_debt)
        (pos after.0.variable_borrow_index));
  scaled_variable_debt = some (pos after.1.curr_scaled_variable_debt);
  principal_stable_debt = some (pos after.1.curr_principal_stable_debt);
  accrued_to_treasury_scaled = some (pos after.0.accrued_to_treasury);
}

-- The tests' update, from its parts.
pub from_parts :
    (answers : Reserve) (expected : ReserveData) (reserve : StoredReserve) (token : StableDebtToken)
    (scaled total now index borrow_index accrued : ℕ)
    → IsStored reserve token now
    → calc_total_supply token now ≡ some total
    → calc_expected_liquidity_index
        (fetched_reserve (fetched answers reserve scaled token))
        (pos now)
      ≡ ok (pos index)
    → calc_expected_variable_borrow_index
        (fetched_reserve (fetched answers reserve scaled token))
        (pos now)
      ≡ ok (pos borrow_index)
    → index < 2 ^ 128
    → accrue_to_treasury reserve.accrued_to_treasury
        (indexed_with reserve
          (cache_with reserve scaled (supply_of token total))
          index
          borrow_index).1
      ≡ some accrued
    → update_state (fetched_reserve (fetched answers reserve scaled token)) expected (pos now)
      ≡ ok (
          updated_as expected (
            record reserve {
              liquidity_index = index;
              variable_borrow_index = borrow_index;
              accrued_to_treasury = accrued;
            },
            cache_with reserve scaled (supply_of token total),
          ))
unfolding update_state calc_expected_total_variable_debt calc_expected_accrue_to_treasury
    total_debt_accrued cache_with
from_parts answers expected reserve token scaled total now index borrow_index accrued b supply
      liquidity borrow fits accrues =
    let stable =
      total_stable-eq-some token now total b.stable_rate_fits b.now_fits
        (omega (arith, b.stable_updated_le, b.updated_before)) supply in
    let treasury =
      accrue_to_treasury-eq-some reserve.accrued_to_treasury
        (indexed_with reserve (cache_with reserve scaled (supply_of token total)) index
          borrow_index).1
        accrued b.stable_rate_fits (omega (arith, b.updated_before, b.now_fits)) b.stable_updated_le
        (omega arith) accrues in
    rw (liquidity, borrow, stable) (rw treasury refl)
