-- ===== src/Contracts/ReserveLogic/Rates.antt =====
-- The rates after an action: `updateInterestRates` of
-- contracts/protocol/libraries/logic/ReserveLogic.sol, and the last steps of an action in
-- test-suites/helpers/utils/calculations.ts.
use rasa_lending_platform_sm.Prelude.{ℕ, ◌+◌, ◌≡◌, ◌∙◌, ap, some}
use rasa_lending_platform_sm.Prelude.Int.{pos}
use rasa_lending_platform_sm.Prelude.Result.{ok}
use rasa_lending_platform_sm.Types.{SymbolMap, ReserveParams}
use rasa_lending_platform_sm.WadRayMath
use rasa_lending_platform_sm.Calculations.Data.{ReserveData}
use rasa_lending_platform_sm.Calculations.Snapshot.{Reserve, fetched_reserve}
use rasa_lending_platform_sm.Calculations.Rates.{calc_expected_interest_rates}
use rasa_lending_platform_sm.Calculations.State.{set_rates, finish_reserve}
use rasa_lending_platform_sm.Calculations.State.Settlement.{
  Amounts, drafted, with_usage, with_rates, update_total-liquid,
}
use rasa_lending_platform_sm.Contracts.WadRayMath.{ray_mul}
use rasa_lending_platform_sm.Contracts.InterestRates.{Strategy, Params, calculate_interest_rates}
use rasa_lending_platform_sm.Contracts.InterestRates.Calls.{>>=-eq-some, ray_mul-eq-some}
use rasa_lending_platform_sm.Contracts.InterestRates.Ratios.{some_path}
use rasa_lending_platform_sm.Contracts.ReserveLogic.{StoredReserve, ReserveCache, to_uint128}
use rasa_lending_platform_sm.Contracts.ReserveLogic.Operations.{update_interest_rates}
use rasa_lending_platform_sm.Contracts.ReserveLogic.Treasury.{to_uint128-eq-some}

-- The numbers that the tests compare with those of the reserve after a transaction.
pub record IsForeseen (expected : ReserveData) (reserve : StoredReserve) : Type 0 where
  pub liquidity_index_eq : expected.liquidity_index ≡ some (pos reserve.liquidity_index)
  pub borrow_index_eq : expected.variable_borrow_index ≡ some (pos reserve.variable_borrow_index)
  pub liquidity_rate_eq : expected.liquidity_rate ≡ some (pos reserve.current_liquidity_rate)
  pub stable_rate_eq : expected.stable_borrow_rate ≡ some (pos reserve.current_stable_borrow_rate)
  pub variable_rate_eq :
      expected.variable_borrow_rate ≡ some (pos reserve.current_variable_borrow_rate)
  pub treasury_eq : expected.accrued_to_treasury_scaled ≡ some (pos reserve.accrued_to_treasury)
  pub unbacked_eq : expected.unbacked ≡ some (pos reserve.unbacked)

-- The rates that are stored are those of the strategy, at the variable debt by the new index.
abbrev pub with_stored_rates : StoredReserve → ℕ × ℕ × ℕ → StoredReserve
with_stored_rates reserve rates = record reserve {
  current_liquidity_rate = rates.0;
  current_stable_borrow_rate = rates.1;
  current_variable_borrow_rate = rates.2;
}

abbrev pub rate_params : ℕ → StoredReserve → ReserveCache → ℕ → ℕ → ℕ → Params
rate_params balance reserve cache variable added taken = record {
  unbacked = reserve.unbacked;
  liquidity_added = added;
  liquidity_taken = taken;
  total_stable_debt = cache.next_total_stable_debt;
  total_variable_debt = variable;
  average_stable_borrow_rate = cache.next_avg_stable_borrow_rate;
  reserve_factor = cache.reserve_factor;
  balance = balance;
}

pub update_interest_rates-eq-some :
    (s : Strategy) (balance : ℕ) (reserve : StoredReserve) (cache : ReserveCache) (added taken : ℕ)
    (after : StoredReserve)
    → update_interest_rates s balance reserve cache added taken ≡ some after
    → (variable : ℕ) × (rates : ℕ × ℕ × ℕ) × (WadRayMath.ray_mul
          (pos cache.next_scaled_variable_debt)
          (pos cache.next_variable_borrow_index)
        ≡ pos variable)
      × (calculate_interest_rates s (rate_params balance reserve cache variable added taken)
          ≡ some rates)
      × (with_stored_rates reserve rates ≡ after)
unfolding update_interest_rates
update_interest_rates-eq-some s balance reserve cache added taken after h =
    let (variable, e1, h1) =
      >>=-eq-some (ray_mul cache.next_scaled_variable_debt cache.next_variable_borrow_index) _ h in
    let (rates, e2, h2) =
      >>=-eq-some
        (calculate_interest_rates s (rate_params balance reserve cache variable added taken)) _
        h1 in
    let (l, e3, h3) = >>=-eq-some (to_uint128 (rates.0)) _ h2 in
    let (st, e4, h4) = >>=-eq-some (to_uint128 (rates.1)) _ h3 in
    let (v, e5, h5) = >>=-eq-some (to_uint128 (rates.2)) _ h4 in
    let (same_l, _) = to_uint128-eq-some (rates.0) l e3 in
    let (same_s, _) = to_uint128-eq-some (rates.1) st e4 in
    let (same_v, _) = to_uint128-eq-some (rates.2) v e5 in
    (
      variable,
      rates,
      ray_mul-eq-some cache.next_scaled_variable_debt cache.next_variable_borrow_index variable e1,
      e2,
      ap (λ n. with_stored_rates reserve (n, rates.1, rates.2)) same_l
          ∙ ap (λ n. with_stored_rates reserve (l, n, rates.2)) same_s
          ∙ ap (λ n. with_stored_rates reserve (l, st, n)) same_v
          ∙ some_path h5,
    )

-- The last steps of an action, from the rates that are expected.
pub finish_reserve-rates :
    (reserves : SymbolMap ReserveParams) (r : Reserve) (x : ReserveData) (m : Amounts)
    (rates : ℕ × ℕ × ℕ)
    → calc_expected_interest_rates reserves r.symbol
        (pos r.market_rate)
        (pos m.stable)
        (pos m.variable)
        (pos m.average)
        (pos m.available)
        (pos (m.available + m.unbacked))
      ≡ ok (pos rates.0, pos rates.1, pos rates.2)
    → finish_reserve reserves (fetched_reserve r) (drafted x m)
      ≡ ok (with_usage (with_rates (drafted x m) (rates.0) (rates.1) (rates.2)) m)
unfolding finish_reserve set_rates
finish_reserve-rates reserves r x m rates e =
    rw e (update_total-liquid (with_rates (drafted x m) (rates.0) (rates.1) (rates.2)) m)
