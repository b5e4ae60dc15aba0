-- ===== src/Contracts/ReserveLogic/Agreement.antt =====
-- `updateState` of test-suites/helpers/utils/calculations.ts against that of
-- contracts/protocol/libraries/logic/ReserveLogic.sol.
use rasa_lending_platform_sm.Prelude.{
  ℕ, ◌≡◌, refl, sym, ◌∙◌, ap, Bool, true, false, some, arith, ◌==◌, if◌then◌else◌,
}
use rasa_lending_platform_sm.Prelude.Int.{pos}
use rasa_lending_platform_sm.Prelude.Result.{ok}
use rasa_lending_platform_sm.Calculations.Data.{ReserveData}
use rasa_lending_platform_sm.Calculations.Snapshot.{Reserve, fetched_reserve}
use rasa_lending_platform_sm.Calculations.State.{update_state}
use rasa_lending_platform_sm.Contracts.MathUtils.{◌>>=◌}
use rasa_lending_platform_sm.Contracts.InterestRates.Calls.{>>=-eq-some}
use rasa_lending_platform_sm.Contracts.InterestRates.Ratios.{some_path}
use rasa_lending_platform_sm.Contracts.ReserveLogic.{
  StoredReserve, ReserveCache, StableDebtToken, calc_total_supply, get_supply_data, cache_with,
  cached, update_indexes, accrue_to_treasury, updated_state,
}
use rasa_lending_platform_sm.Contracts.ReserveLogic.Parts.{
  IsStored, fetched, supply_of, updated_as, update_indexes-eq-some, from_parts,
}

-- The reserve and the cache after an update.
abbrev pub after_of : StoredReserve → ReserveCache → ℕ → ℕ → ℕ → ℕ → StoredReserve × ReserveCache
after_of reserve cache index borrow_index accrued now = (
  record reserve {
    liquidity_index = index;
    variable_borrow_index = borrow_index;
    accrued_to_treasury = accrued;
    last_update_timestamp = now;
  },
  record cache { next_liquidity_index = index; next_variable_borrow_index = borrow_index },
)

-- The two updates, on the cache of a reserve.
pub updated_state-eq-some :
    (answers : Reserve) (reserve : StoredReserve) (token : StableDebtToken) (scaled now : ℕ)
    (cache : ReserveCache) (after : StoredReserve × ReserveCache)
    → IsStored reserve token now
    → (answers.supply_ratio ≡ 0 → reserve.current_liquidity_rate ≡ 0)
    → (answers.variable == 0) ≡ (scaled == 0)
    → cached reserve scaled token now ≡ some cache
    → updated_state reserve cache now ≡ some after
    → (total index borrow_index accrued : ℕ) × (after_of reserve
          (cache_with reserve scaled (supply_of token total))
          index
          borrow_index
          accrued
          now
        ≡ after)
      × ((expected : ReserveData)
          → update_state (fetched_reserve (fetched answers reserve scaled token)) expected (pos now)
            ≡ ok (
                updated_as expected (
                  after_of reserve
                    (cache_with reserve scaled (supply_of token total))
                    index
                    borrow_index
                    accrued
                    now)))
unfolding cached get_supply_data updated_state
updated_state-eq-some answers reserve token scaled now cache after b usage debt load h =
    let (supply, e1, h1) = >>=-eq-some (get_supply_data token now) _ load in
    let (total, e2, h2) = >>=-eq-some (calc_total_supply token now) _ e1 in
    let same = ap (cache_with reserve scaled) (some_path h2) ∙ some_path h1 in
    by_time total e2 (reserve.last_update_timestamp == now) refl
      (ap (λ c. updated_state reserve c now) same ∙ h)
  where
    by_time :
        (total : ℕ)
        → calc_total_supply token now ≡ some total
        → (same_time : Bool) → (reserve.last_update_timestamp == now) ≡ same_time
        → (if same_time
            then some (reserve, cache_with reserve scaled (supply_of token total))
            else (do
              indexed ←
                  update_indexes reserve (cache_with reserve scaled (supply_of token total)) now
              accrued ← accrue_to_treasury (indexed.0.accrued_to_treasury) (indexed.1)
              some (
                record (indexed.0) { accrued_to_treasury = accrued; last_update_timestamp = now },
                indexed.1,
              )))
          ≡ some after
        → (total index borrow_index accrued : ℕ) × (after_of reserve
              (cache_with reserve scaled (supply_of token total))
              index
              borrow_index
              accrued
              now
            ≡ after)
          × ((expected : ReserveData)
              → update_state
                  (fetched_reserve (fetched answers reserve scaled token))
                  expected
                  (pos now)
                ≡ ok (
                    updated_as expected (
                      after_of reserve
                        (cache_with reserve scaled (supply_of token total))
                        index
                        borrow_index
                        accrued
                        now)))
    by_time total supply true e h = absurd (ground (arith, b.updated_before))
    by_time total supply false e h =
        let (indexed, e1, h1) =
          >>=-eq-some
            (update_indexes reserve (cache_with reserve scaled (supply_of token total)) now) _ h in
        let (accrued, e2, h2) =
          >>=-eq-some (accrue_to_treasury (indexed.0.accrued_to_treasury) (indexed.1)) _ h1 in
        let (index, borrow_index, same, fits, liquidity, borrow) =
          update_indexes-eq-some answers reserve token scaled total now indexed b usage debt e1 in
        (
          total,
          index,
          borrow_index,
          accrued,
          ap
                (λ i. (
                  record (i.0) { accrued_to_treasury = accrued; last_update_timestamp = now },
                  i.1,
                ))
                same
              ∙ some_path h2,
          λ expected.
              from_parts answers expected reserve token scaled total now index borrow_index accrued
                b supply liquidity borrow fits
                (ap (λ i. accrue_to_treasury (i.0.accrued_to_treasury) (i.1)) same ∙ e2),
        )

-- Where the contract's `updateState` does not revert, at a later time than the last update, the tests'
-- does not throw on what they fetch of that reserve, and expects what the contract has then: both
-- indexes, the stable debt, and what has accrued to the treasury, with the scaled and the principal
-- debt as before and the variable debt at the new index; the contract stores the time. The stored
-- numbers fit their types, and the stable debt was updated no later than the reserve; the fetched usage
-- ratio is zero only where the liquidity rate is, and the fetched variable debt exactly where the scaled
-- one is.
pub updated_state_agrees :
    (answers : Reserve) (expected : ReserveData) (reserve : StoredReserve) (token : StableDebtToken)
    (scaled now : ℕ) (cache : ReserveCache) (after : StoredReserve × ReserveCache)
    → IsStored reserve token now
    → (answers.supply_ratio ≡ 0 → reserve.current_liquidity_rate ≡ 0)
    → (answers.variable == 0) ≡ (scaled == 0)
    → cached reserve scaled token now ≡ some cache
    → updated_state reserve cache now ≡ some after
    → (update_state (fetched_reserve (fetched answers reserve scaled token)) expected (pos now)
        ≡ ok (updated_as expected after))
      × (after.0.last_update_timestamp ≡ now)
updated_state_agrees answers expected reserve token scaled now cache after b usage debt load h =
    let (total, index, borrow_index, accrued, all, expects) =
      updated_state-eq-some answers reserve token scaled now cache after b usage debt load h in
    (
      expects expected ∙ ap (λ a. ok (updated_as expected a)) all,
      sym (ap (λ a. a.0.last_update_timestamp) all),
    )
