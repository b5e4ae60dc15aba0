-- ===== src/Calculations/State.antt =====
-- What an action does to the indexes, the debts and the liquidity of a reserve, of
-- test-suites/helpers/utils/calculations.ts. A function that writes into `expectedReserveData`
-- returns the new object. A missing field throws where the code hands it on.
pub mod Accrual
pub mod Settlement
use rasa_lending_platform_sm.Prelude.{some, if◌then◌else◌}
use rasa_lending_platform_sm.Prelude.Int.{ℤ, pos, ◌+ℤ◌, ◌-ℤ◌, eqb_ℤ, ltb_ℤ}
use rasa_lending_platform_sm.Prelude.Result.{Result, ok, ◌>>=◌, defined}
use rasa_lending_platform_sm.Types.{SymbolMap, ReserveParams}
use rasa_lending_platform_sm.WadRayMath.{ray_mul, ray_div, percent_mul}
use rasa_lending_platform_sm.Calculations.Data.{ReserveData, UserReserveData, empty_reserve}
use rasa_lending_platform_sm.Calculations.Interest.{
  calc_linear_interest, calc_compounded_interest, calc_expected_total_stable_debt,
  calc_expected_reserve_normalized_debt,
}
use rasa_lending_platform_sm.Calculations.Rates.{
  calc_expected_usage_ratios, calc_expected_interest_rates,
}

unfoldable pub calc_expected_reserve_normalized_income : ReserveData → ℤ → Result ℤ
calc_expected_reserve_normalized_income reserve current_timestamp = do
  liquidity_rate ← defined reserve.liquidity_rate
  liquidity_index ← defined reserve.liquidity_index
  last_update ← defined reserve.last_update_timestamp
  let interest = calc_linear_interest liquidity_rate current_timestamp last_update
  ok (if eqb_ℤ liquidity_rate (pos 0) then liquidity_index else ray_mul interest liquidity_index)

unfoldable pub calc_expected_rs_token_balance : ReserveData → UserReserveData → ℤ → Result ℤ
calc_expected_rs_token_balance reserve user current_timestamp = do
  index ← calc_expected_reserve_normalized_income reserve current_timestamp
  scaled ← defined user.scaled_rs_token_balance
  ok (ray_mul scaled index)

unfoldable pub calc_expected_scaled_rs_token_balance : UserReserveData → ℤ → ℤ → ℤ → Result ℤ
calc_expected_scaled_rs_token_balance user index amount_added amount_taken = do
  scaled ← defined user.scaled_rs_token_balance
  added ← ray_div amount_added index
  taken ← ray_div amount_taken index
  ok (scaled +ℤ added -ℤ taken)

unfoldable pub calc_expected_variable_debt_token_balance :
    ReserveData → UserReserveData → ℤ → Result ℤ
calc_expected_variable_debt_token_balance reserve user current_timestamp = do
  rate ← defined reserve.variable_borrow_rate
  index ← defined reserve.variable_borrow_index
  last_update ← defined reserve.last_update_timestamp
  scaled ← defined user.scaled_variable_debt
  let debt = calc_expected_reserve_normalized_debt rate index last_update current_timestamp
  ok (ray_mul scaled debt)

unfoldable pub calc_expected_liquidity_index : ReserveData → ℤ → Result ℤ
calc_expected_liquidity_index reserve timestamp = do
  usage ← defined reserve.supply_usage_ratio
  index ← defined reserve.liquidity_index
  rate ← defined reserve.liquidity_rate
  last_update ← defined reserve.last_update_timestamp
  let interest = calc_linear_interest rate timestamp last_update
  ok (if eqb_ℤ usage (pos 0) then index else ray_mul interest index)

unfoldable pub calc_expected_variable_borrow_index : ReserveData → ℤ → Result ℤ
calc_expected_variable_borrow_index reserve timestamp = do
  debt ← defined reserve.total_variable_debt
  index ← defined reserve.variable_borrow_index
  rate ← defined reserve.variable_borrow_rate
  last_update ← defined reserve.last_update_timestamp
  let interest = calc_compounded_interest rate timestamp last_update
  ok (if eqb_ℤ debt (pos 0) then index else ray_mul interest index)

unfoldable pub calc_expected_total_variable_debt : ReserveData → ℤ → Result ℤ
calc_expected_total_variable_debt reserve index = do
  scaled ← defined reserve.scaled_variable_debt
  ok (ray_mul scaled index)

-- The debt that has accrued since the last update: later totals less earlier totals.
unfoldable pub total_debt_accrued : ReserveData → ReserveData → Result ℤ
total_debt_accrued reserve next = do
  scaled ← defined reserve.scaled_variable_debt
  index ← defined reserve.variable_borrow_index
  next_scaled ← defined next.scaled_variable_debt
  next_index ← defined next.variable_borrow_index
  average_rate ← defined reserve.average_stable_borrow_rate
  last_update ← defined reserve.last_update_timestamp
  stable_last_update ← defined reserve.total_stable_debt_last_updated
  principal ← defined reserve.principal_stable_debt
  next_stable ← defined next.total_stable_debt
  let stable_interest = calc_compounded_interest average_rate last_update stable_last_update
  ok (
      ray_mul next_scaled next_index
      +ℤ next_stable
      -ℤ ray_mul scaled index
      -ℤ ray_mul principal stable_interest)

unfoldable pub calc_expected_accrue_to_treasury : ReserveData → ReserveData → Result ℤ
calc_expected_accrue_to_treasury reserve next = do
  factor ← defined reserve.reserve_factor
  accrued ← defined reserve.accrued_to_treasury_scaled
  if eqb_ℤ factor (pos 0) then ok accrued else (do
    debt_accrued ← total_debt_accrued reserve next
    next_index ← defined next.liquidity_index
    let to_mint = percent_mul debt_accrued factor
    if ltb_ℤ (pos 0) to_mint
        then (do minted ← ray_div to_mint next_index; ok (accrued +ℤ minted))
        else ok accrued)

unfoldable pub update_state : ReserveData → ReserveData → ℤ → Result ReserveData
update_state before expected tx_timestamp = do
  liquidity_index ← calc_expected_liquidity_index before tx_timestamp
  borrow_index ← calc_expected_variable_borrow_index before tx_timestamp
  principal ← defined before.principal_stable_debt
  average_rate ← defined before.average_stable_borrow_rate
  stable_last_update ← defined before.total_stable_debt_last_updated
  total_variable ← calc_expected_total_variable_debt before borrow_index
  let total_stable =
      calc_expected_total_stable_debt principal average_rate stable_last_update tx_timestamp
  let updated = record expected {
    liquidity_index = some liquidity_index;
    variable_borrow_index = some borrow_index;
    total_stable_debt = some total_stable;
    total_variable_debt = some total_variable;
    scaled_variable_debt = before.scaled_variable_debt;
    principal_stable_debt = before.principal_stable_debt;
  }
  treasury ← calc_expected_accrue_to_treasury before updated
  ok (record updated { accrued_to_treasury_scaled = some treasury })

-- `[e.borrowUsageRatio, e.supplyUsageRatio] = calcExpectedUsageRatios(...)`.
unfoldable pub set_usage_ratios : ReserveData → Result ReserveData
set_usage_ratios expected = do
  total_stable ← defined expected.total_stable_debt
  total_variable ← defined expected.total_variable_debt
  available ← defined expected.available_liquidity
  total ← defined expected.total_liquidity
  ratios ← calc_expected_usage_ratios total_stable total_variable available total
  ok (record expected { borrow_usage_ratio = some ratios.0; supply_usage_ratio = some ratios.1 })

unfoldable pub update_liquidity_and_usage_ratios :
    ReserveData → ReserveData → ℤ → ℤ → Result ReserveData
update_liquidity_and_usage_ratios before expected liquidity_added liquidity_taken = do
  available ← defined before.available_liquidity
  unbacked ← defined expected.unbacked
  let remaining = available +ℤ liquidity_added -ℤ liquidity_taken
  set_usage_ratios (record expected {
    available_liquidity = some remaining;
    total_liquidity = some (remaining +ℤ unbacked);
  })

unfoldable pub update_total_liquidity_and_usage_ratio : ReserveData → Result ReserveData
update_total_liquidity_and_usage_ratio expected = do
  available ← defined expected.available_liquidity
  unbacked ← defined expected.unbacked
  set_usage_ratios (record expected { total_liquidity = some (available +ℤ unbacked) })

-- `const expectedReserveData = <ReserveData>{}` with the fields that each action copies first.
abbrev pub start_reserve : ReserveData → ReserveData
start_reserve before = record empty_reserve {
  unbacked = before.unbacked;
  address = before.address;
  reserve_factor = before.reserve_factor;
}

-- `const rates = calcExpectedInterestRates(...)` and the three fields that it sets.
unfoldable pub set_rates :
    SymbolMap ReserveParams → ReserveData → ℤ → ℤ → ReserveData → Result ReserveData
set_rates reserves_params before total_stable total_variable expected = do
  symbol ← defined before.symbol
  market_rate ← defined before.market_stable_rate
  average_rate ← defined expected.average_stable_borrow_rate
  available ← defined expected.available_liquidity
  total ← defined expected.total_liquidity
  rates ←
      calc_expected_interest_rates reserves_params symbol market_rate total_stable total_variable
        average_rate available total
  ok (record expected {
    liquidity_rate = some rates.0;
    stable_borrow_rate = some rates.1;
    variable_borrow_rate = some rates.2;
  })

-- The last steps of most actions: the rates for the debts in `expected`, then the ratios anew.
unfoldable pub finish_reserve :
    SymbolMap ReserveParams → ReserveData → ReserveData → Result ReserveData
finish_reserve reserves_params before expected = do
  total_stable ← defined expected.total_stable_debt
  total_variable ← defined expected.total_variable_debt
  priced ← set_rates reserves_params before total_stable total_variable expected
  update_total_liquidity_and_usage_ratio priced
