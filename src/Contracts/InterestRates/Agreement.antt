-- ===== src/Contracts/InterestRates/Agreement.antt =====
-- The rates of test-suites/helpers/utils/calculations.ts against those of
-- contracts/protocol/pool/DefaultReserveInterestRateStrategy.sol.
use rasa_lending_platform_sm.Prelude.{ℕ, ◌+◌, ◌≡◌, refl, sym, ◌∙◌, ap, some, String}
use rasa_lending_platform_sm.Prelude.Int.{pos, ◌-ℤ◌, -ℤ-pos}
use rasa_lending_platform_sm.Prelude.Result.{ok}
use rasa_lending_platform_sm.WadRayMath
use rasa_lending_platform_sm.WadRayMath.{ray, percentage_factor}
use rasa_lending_platform_sm.Types.{SymbolMap, ReserveParams}
use rasa_lending_platform_sm.Calculations.Rates.{
  find_params, usage_rates, add_stable_excess, calc_expected_overall_borrow_rate,
  calc_expected_usage_ratios, calc_expected_interest_rates,
}
use rasa_lending_platform_sm.Contracts.WadRayMath.{ray_mul, percent_mul}
use rasa_lending_platform_sm.Contracts.MathUtils.{checked_add, checked_sub}
use rasa_lending_platform_sm.Contracts.InterestRates.{
  Strategy, Params, get_base_stable_borrow_rate, get_ratios, add_slopes, add_excess_offset,
  get_overall_borrow_rate, calculate_interest_rates,
}
use rasa_lending_platform_sm.Contracts.InterestRates.Calls.{
  >>=-eq-some, ray_mul-eq-some, percent_mul-eq-some, checked_add-eq-some, checked_sub-eq-some,
}
use rasa_lending_platform_sm.Contracts.InterestRates.Stages.{
  IsSound, to_params, add_slopes-eq-some, add_excess_offset-eq-some,
}
use rasa_lending_platform_sm.Contracts.InterestRates.Overall.{overall-eq-some}
use rasa_lending_platform_sm.Contracts.InterestRates.Ratios.{
  some_path, stable_share, ratios-eq-some, usage_ratios_are,
}

-- The rates of the tests, from the results of their stages.
from_stages :
    (reserves : SymbolMap ReserveParams) (symbol : String) (reserve : ReserveParams)
    (market stable variable average available total_liquidity b w share : ℕ)
    (sloped stable_rate variable_rate overall liquidity_rate : ℕ)
    → find_params symbol reserves ≡ some reserve
    → calc_expected_usage_ratios (pos stable) (pos variable) (pos available) (pos total_liquidity)
      ≡ ok (pos b, pos w)
    → stable_share stable variable ≡ ok (pos share)
    → usage_rates reserve.strategy (pos market) (pos b) ≡ ok (pos sloped, pos variable_rate)
    → add_stable_excess reserve.strategy (pos share) (pos sloped) ≡ ok (pos stable_rate)
    → calc_expected_overall_borrow_rate
        (pos stable)
        (pos variable)
        (pos variable_rate)
        (pos average)
      ≡ ok (pos overall)
    → WadRayMath.percent_mul
        (WadRayMath.ray_mul (pos overall) (pos w))
        (pos percentage_factor -ℤ reserve.reserve_factor)
      ≡ pos liquidity_rate
    → calc_expected_interest_rates reserves symbol
        (pos market)
        (pos stable)
        (pos variable)
        (pos average)
        (pos available)
        (pos total_liquidity)
      ≡ ok (pos liquidity_rate, pos stable_rate, pos variable_rate)
unfolding calc_expected_interest_rates
from_stages reserves symbol reserve market stable variable average available total_liquidity b w
      share sloped stable_rate variable_rate overall liquidity_rate listed ratios shared rates
      excess weighted liquidity =
    rw (listed, ratios, shared, rates, excess, weighted, liquidity) refl

-- Where the contract's `calculateInterestRates` does not revert, `calcExpectedInterestRates` does not throw
-- and gives the same liquidity, stable and variable rate. The strategy has the parameters that the tests
-- list under the symbol, with optimal ratios of at most a ray, as its constructor requires; the tests are
-- given the contract's base stable rate, and as available liquidity the balance with what is added and
-- without what is taken.
pub calculate_interest_rates_agrees :
    (reserves : SymbolMap ReserveParams) (symbol name : String) (reserve : ReserveParams)
    (s : Strategy) (params : Params) (available market : ℕ) (rates : ℕ × ℕ × ℕ)
    → IsSound s
    → find_params symbol reserves ≡ some reserve
    → reserve.strategy ≡ to_params name s
    → reserve.reserve_factor ≡ pos params.reserve_factor
    → get_base_stable_borrow_rate s ≡ some market
    → available + params.liquidity_taken ≡ params.balance + params.liquidity_added
    → calculate_interest_rates s params ≡ some rates
    → calc_expected_interest_rates reserves symbol
        (pos market)
        (pos params.total_stable_debt)
        (pos params.total_variable_debt)
        (pos params.average_stable_borrow_rate)
        (pos available)
        (pos (available + params.unbacked))
      ≡ ok (pos rates.0, pos rates.1, pos rates.2)
unfolding calculate_interest_rates
calculate_interest_rates_agrees reserves symbol name reserve s params available market rates sound
      listed strategy factor base balanced h =
    let stable = params.total_stable_debt in
    let variable = params.total_variable_debt in
    let (total, e1, h1) = >>=-eq-some (checked_add stable variable) _ h in
    let (sum, fits) = checked_add-eq-some stable variable total e1 in
    let (base_stable, e2, h2) = >>=-eq-some (get_base_stable_borrow_rate s) _ h1 in
    let (ratios, e3, h3) = >>=-eq-some (get_ratios params total) _ h2 in
    let (sloped, e4, h4) = >>=-eq-some (add_slopes s base_stable ratios.1) _ h3 in
    let (stable_rate, e5, h5) = >>=-eq-some (add_excess_offset s ratios.0 sloped.0) _ h4 in
    let (overall, e6, h6) =
      >>=-eq-some
        (get_overall_borrow_rate stable variable sloped.1 params.average_stable_borrow_rate) _ h5 in
    let (supplied, e7, h7) = >>=-eq-some (ray_mul overall ratios.2) _ h6 in
    let (share, e8, h8) = >>=-eq-some (checked_sub percentage_factor params.reserve_factor) _ h7 in
    let (liquidity_rate, e9, h9) = >>=-eq-some (percent_mul supplied share) _ h8 in
    let (borrowed, supplied_ratio, shared) =
      ratios-eq-some params total available ratios sum fits balanced e3 in
    let same : base_stable ≡ market = some_path (sym e2 ∙ base) in
    let (le, left) = checked_sub-eq-some percentage_factor params.reserve_factor share e8 in
    let all : (liquidity_rate, stable_rate, sloped.1) ≡ rates = some_path h9 in
    let liquidity : WadRayMath.percent_mul (WadRayMath.ray_mul (pos overall) (pos ratios.2))
          (pos percentage_factor -ℤ reserve.reserve_factor)
        ≡ pos liquidity_rate =
      ap (λ n. WadRayMath.percent_mul n (pos percentage_factor -ℤ reserve.reserve_factor))
        (ray_mul-eq-some overall ratios.2 supplied e7)
      ∙ ap (λ f. WadRayMath.percent_mul (pos supplied) (pos percentage_factor -ℤ f)) factor
      ∙ ap (WadRayMath.percent_mul (pos supplied))
          (-ℤ-pos percentage_factor params.reserve_factor le)
      ∙ ap (λ n. WadRayMath.percent_mul (pos supplied) (pos n)) left
      ∙ percent_mul-eq-some supplied share liquidity_rate e9 in
    from_stages reserves symbol reserve market stable variable params.average_stable_borrow_rate
      available (available + params.unbacked) ratios.1 ratios.2 ratios.0 sloped.0 stable_rate
      sloped.1 overall liquidity_rate listed
      (usage_ratios_are stable variable available params.unbacked total ratios.1 ratios.2 sum
        borrowed supplied_ratio)
      shared
      (ap (λ m. usage_rates reserve.strategy (pos m) (pos ratios.1)) (sym same)
        ∙ ap (λ st. usage_rates st (pos base_stable) (pos ratios.1)) strategy
        ∙ add_slopes-eq-some name s sound base_stable ratios.1 sloped e4)
      (ap (λ st. add_stable_excess st (pos ratios.0) (pos sloped.0)) strategy
        ∙ add_excess_offset-eq-some name s sound ratios.0 sloped.0 stable_rate e5)
      (overall-eq-some stable variable sloped.1 params.average_stable_borrow_rate overall e6)
      liquidity
    ∙ ap (λ r. ok (pos r.0, pos r.1, pos r.2)) all
