-- ===== src/Contracts/ReserveLogic/Liquidity.antt =====
-- A deposit and a withdrawal in test-suites/helpers/utils/calculations.ts against what
-- contracts/protocol/libraries/logic/SupplyLogic.sol does to the reserve: `cache`, `updateState` and
-- `updateInterestRates` of contracts/protocol/libraries/logic/ReserveLogic.sol.
use rasa_lending_platform_sm.Prelude.{
  ℕ, ◌-◌, ◌≤◌, ◌≢◌, false, ◌+◌, ◌≡◌, refl, ◌∙◌, ap, subst, some, String, arith, ◌==◌,
}
use rasa_lending_platform_sm.Prelude.Int.{pos, eqb_ℤ}
use rasa_lending_platform_sm.Prelude.Result.{ok}
use rasa_lending_platform_sm.Types.{SymbolMap, ReserveParams}
use rasa_lending_platform_sm.Calculations.Data.{ReserveData, UserReserveData}
use rasa_lending_platform_sm.Calculations.Snapshot.{Reserve, fetched_reserve}
use rasa_lending_platform_sm.Calculations.Rates.{find_params}
use rasa_lending_platform_sm.Calculations.State.{
  start_reserve, update_state, update_liquidity_and_usage_ratios, finish_reserve,
}
use rasa_lending_platform_sm.Calculations.State.Settlement.{
  Amounts, indebted, liquid, drafted, with_usage, with_rates, update_liquidity-indebted,
}
use rasa_lending_platform_sm.Calculations.Liquidity.{
  calc_expected_reserve_data_after_deposit, calc_expected_reserve_data_after_withdraw,
  amount_to_withdraw, max_uint_amount,
}
use rasa_lending_platform_sm.Contracts.InterestRates.{Strategy, get_base_stable_borrow_rate}
use rasa_lending_platform_sm.Contracts.InterestRates.Stages.{IsSound, to_params}
use rasa_lending_platform_sm.Contracts.InterestRates.Agreement.{calculate_interest_rates_agrees}
use rasa_lending_platform_sm.Contracts.ReserveLogic.{
  StoredReserve, ReserveCache, StableDebtToken, cache_with, cached, updated_state,
}
use rasa_lending_platform_sm.Contracts.ReserveLogic.Operations.{update_interest_rates}
use rasa_lending_platform_sm.Contracts.ReserveLogic.Parts.{IsStored, fetched, supply_of, updated_as}
use rasa_lending_platform_sm.Contracts.ReserveLogic.Agreement.{after_of, updated_state-eq-some}
use rasa_lending_platform_sm.Contracts.ReserveLogic.Rates.{
  IsForeseen, rate_params, update_interest_rates-eq-some, finish_reserve-rates,
}

-- The tests list the parameters of the strategy under the symbol of the reserve, with its reserve
-- factor, and fetch the strategy's base stable rate.
pub record IsListed (reserves : SymbolMap ReserveParams) (answers : Reserve)
    (reserve : StoredReserve) (s : Strategy) : Type 0 where
  pub name : String
  pub params : ReserveParams
  pub is_sound : IsSound s
  pub found : find_params answers.symbol reserves ≡ some params
  pub strategy_eq : params.strategy ≡ to_params name s
  pub factor_eq : params.reserve_factor ≡ pos reserve.reserve_factor
  pub base_eq : get_base_stable_borrow_rate s ≡ some answers.market_rate

module _ (reserves : SymbolMap ReserveParams) (s : Strategy) (answers : Reserve)
    (reserve : StoredReserve) (token : StableDebtToken) (scaled now : ℕ) where
  -- The three steps of the tests after the contracts have moved liquidity.
  moved-IsForeseen :
      (added taken : ℕ) (cache : ReserveCache) (after : StoredReserve × ReserveCache)
      (final : StoredReserve)
      → IsStored reserve token now
      → IsListed reserves answers reserve s
      → (answers.supply_ratio ≡ 0 → reserve.current_liquidity_rate ≡ 0)
      → (answers.variable == 0) ≡ (scaled == 0)
      → taken ≤ answers.available + added
      → cached reserve scaled token now ≡ some cache
      → updated_state reserve cache now ≡ some after
      → update_interest_rates s answers.available (after.0) (after.1) added taken ≡ some final
      → (updated moved expected : ReserveData) × (update_state
            (fetched_reserve (fetched answers reserve scaled token))
            (start_reserve (fetched_reserve (fetched answers reserve scaled token)))
            (pos now)
          ≡ ok updated)
        × (update_liquidity_and_usage_ratios
              (fetched_reserve (fetched answers reserve scaled token))
              updated
              (pos added)
              (pos taken)
            ≡ ok moved)
        × (finish_reserve reserves
              (fetched_reserve (fetched answers reserve scaled token))
              (record moved { average_stable_borrow_rate = some (pos token.avg_stable_rate) })
            ≡ ok expected)
        × IsForeseen expected final
  unfolding cache_with
  moved-IsForeseen added taken cache after final b listed usage debt le load update price =
      let (total, index, borrow_index, accrued, all, expects) =
        updated_state-eq-some answers reserve token scaled now cache after b usage debt load
          update in
      let e =
        after_of reserve (cache_with reserve scaled (supply_of token total)) index borrow_index
          accrued now in
      let r = fetched answers reserve scaled token in
      let (variable, rates, owed, priced, last) =
        update_interest_rates-eq-some s answers.available (e.0) (e.1) added taken final (
          ap (λ a. update_interest_rates s answers.available (a.0) (a.1) added taken) all
          ∙ price) in
      let x : ReserveData = updated_as (start_reserve (fetched_reserve r)) e in
      let m : Amounts = record {
        stable = total;
        variable = variable;
        average = token.avg_stable_rate;
        available = answers.available + added - taken;
        unbacked = reserve.unbacked;
      } in
      let expected : ReserveData =
        with_usage (with_rates (drafted (with_usage x m) m) (rates.0) (rates.1) (rates.2)) m in
      (
        indebted x m,
        with_usage (liquid x m) m,
        expected,
        expects (start_reserve (fetched_reserve r))
            ∙ ap (λ z. ok (record x { total_variable_debt = some z })) owed,
        update_liquidity-indebted x r m added taken le refl,
        finish_reserve-rates reserves r (with_usage x m) m rates (
            calculate_interest_rates_agrees reserves answers.symbol listed.name listed.params s
              (rate_params answers.available (e.0) (e.1) variable added taken)
              (answers.available + added - taken) answers.market_rate rates listed.is_sound
              listed.found listed.strategy_eq listed.factor_eq listed.base_eq (omega arith) priced),
        subst (IsForeseen expected) last (record {
          liquidity_index_eq = refl;
          borrow_index_eq = refl;
          liquidity_rate_eq = refl;
          stable_rate_eq = refl;
          variable_rate_eq = refl;
          treasury_eq = refl;
          unbacked_eq = refl;
        }),
      )

  -- Where the contracts' `cache`, `updateState` and `updateInterestRates` for a deposit do not revert,
  -- `calcExpectedReserveDataAfterDeposit` does not throw on what the tests fetch of the stored reserve,
  -- and foresees its new liquidity and variable borrow index, its three rates, its treasury and its
  -- unbacked amount. The stored numbers fit their types, the last update was before now and that of the
  -- stable debt no later; the tests list the reserve factor and the strategy, with optimal ratios of at
  -- most a ray, and fetch its base stable rate; the balance that it reads is the fetched liquidity; the
  -- fetched usage ratio is zero only where the liquidity rate is, and the fetched variable debt exactly
  -- where the scaled one is.
  pub deposit-IsForeseen :
      (amount : ℕ) (cache : ReserveCache) (after : StoredReserve × ReserveCache)
      (final : StoredReserve)
      → IsStored reserve token now
      → IsListed reserves answers reserve s
      → (answers.supply_ratio ≡ 0 → reserve.current_liquidity_rate ≡ 0)
      → (answers.variable == 0) ≡ (scaled == 0)
      → cached reserve scaled token now ≡ some cache
      → updated_state reserve cache now ≡ some after
      → update_interest_rates s answers.available (after.0) (after.1) amount 0 ≡ some final
      → (expected : ReserveData) × (calc_expected_reserve_data_after_deposit reserves
            (pos amount)
            (fetched_reserve (fetched answers reserve scaled token))
            (pos now)
          ≡ ok expected)
        × IsForeseen expected final
  unfolding calc_expected_reserve_data_after_deposit
  deposit-IsForeseen amount cache after final b listed usage debt load update price =
      let (updated, moved, expected, e1, e2, e3, foreseen) =
        moved-IsForeseen amount 0 cache after final b listed usage debt (omega arith) load update
          price in
      (expected, rw (e1, e2) e3, foreseen)

  -- Where the contracts' `cache`, `updateState` and `updateInterestRates` for a withdrawal of an explicit
  -- amount that is available do not revert, `calcExpectedReserveDataAfterWithdraw` does not throw on what
  -- the tests fetch of the stored reserve, whatever they fetch of the user, and foresees its new
  -- liquidity and variable borrow index, its three rates, its treasury and its unbacked amount. The
  -- stored numbers fit their types, the last update was before now and that of the stable debt no later;
  -- the tests list the reserve factor and the strategy, with optimal ratios of at most a ray, and fetch
  -- its base stable rate; the balance that it reads is the fetched liquidity; the fetched usage ratio is
  -- zero only where the liquidity rate is, and the fetched variable debt exactly where the scaled one is.
  pub withdraw-IsForeseen :
      (user : UserReserveData) (amount : ℕ) (cache : ReserveCache)
      (after : StoredReserve × ReserveCache) (final : StoredReserve)
      → IsStored reserve token now
      → IsListed reserves answers reserve s
      → (answers.supply_ratio ≡ 0 → reserve.current_liquidity_rate ≡ 0)
      → (answers.variable == 0) ≡ (scaled == 0)
      → amount ≤ answers.available
      → amount ≢ max_uint_amount
      → cached reserve scaled token now ≡ some cache
      → updated_state reserve cache now ≡ some after
      → update_interest_rates s answers.available (after.0) (after.1) 0 amount ≡ some final
      → (expected : ReserveData) × (calc_expected_reserve_data_after_withdraw reserves
            (pos amount)
            (fetched_reserve (fetched answers reserve scaled token))
            user
            (pos now)
          ≡ ok expected)
        × IsForeseen expected final
  unfolding calc_expected_reserve_data_after_withdraw amount_to_withdraw
  withdraw-IsForeseen user amount cache after final b listed usage debt le ne load update price =
      let explicit : eqb_ℤ (pos amount) (pos max_uint_amount) ≡ false = ground arith in
      let (updated, moved, expected, e1, e2, e3, foreseen) =
        moved-IsForeseen 0 amount cache after final b listed usage debt (omega arith) load update
          price in
      (expected, rw (explicit, e1, e2) e3, foreseen)
