-- ===== src/Contracts/InterestRates/Examples.antt =====
-- The rates of a small reserve: half of it is borrowed, a tenth of that at a stable rate.
use rasa_lending_platform_sm.Prelude.{◌+◌, ◌*◌, ◌^◌, ◌≡◌, refl, some, [], ◌∷◌, arith}
use rasa_lending_platform_sm.Prelude.Int.{pos}
use rasa_lending_platform_sm.Prelude.Result.{ok}
use rasa_lending_platform_sm.Types.{ReserveParams, SymbolMap}
use rasa_lending_platform_sm.Calculations.Rates.{find_params, calc_expected_interest_rates}
use rasa_lending_platform_sm.Calculations.Examples.Market.{dai_params}
use rasa_lending_platform_sm.Contracts.WadRayMath.{ray_mul, ray_div, wad_to_ray, percent_mul}
use rasa_lending_platform_sm.Contracts.MathUtils.{checked_add, checked_sub}
use rasa_lending_platform_sm.Contracts.InterestRates.{
  Strategy, Params, get_base_stable_borrow_rate, get_ratios, rate_above, rate_below, add_slopes,
  add_excess_offset, get_overall_borrow_rate, calculate_interest_rates,
}
use rasa_lending_platform_sm.Contracts.InterestRates.Stages.{to_params}
use rasa_lending_platform_sm.Contracts.InterestRates.Agreement.{calculate_interest_rates_agrees}

abbrev pub strategy : Strategy
strategy = record {
  optimal_usage_ratio = 8 * 10 ^ 26;
  optimal_stable_to_total_debt_ratio = 2 * 10 ^ 26;
  base_variable_borrow_rate = 0;
  variable_rate_slope1 = 4 * 10 ^ 25;
  variable_rate_slope2 = 75 * 10 ^ 25;
  stable_rate_slope1 = 5 * 10 ^ 24;
  stable_rate_slope2 = 75 * 10 ^ 25;
  base_stable_rate_offset = 10 ^ 25;
  stable_rate_excess_offset = 8 * 10 ^ 25;
}

abbrev borrowed : Params
borrowed = record {
  unbacked = 0;
  liquidity_added = 100 * 10 ^ 18;
  liquidity_taken = 0;
  total_stable_debt = 50 * 10 ^ 18;
  total_variable_debt = 450 * 10 ^ 18;
  average_stable_borrow_rate = 6 * 10 ^ 25;
  reserve_factor = 1000;
  balance = 400 * 10 ^ 18;
}

abbrev pub reserve : ReserveParams
reserve = record dai_params { reserve_factor = pos 1000; strategy = to_params "half" strategy }

abbrev pub market : SymbolMap ReserveParams
market = ("DAI", reserve) ∷ []

rates_of_half :
    calculate_interest_rates strategy borrowed
    ≡ some (1282500 * 10 ^ 19, 53125 * 10 ^ 21, 25 * 10 ^ 24)
unfolding calculate_interest_rates get_base_stable_borrow_rate get_ratios rate_above rate_below
    add_slopes add_excess_offset get_overall_borrow_rate ray_mul ray_div wad_to_ray percent_mul
    checked_add checked_sub
rates_of_half = refl

pub base_rate : get_base_stable_borrow_rate strategy ≡ some (5 * 10 ^ 25)
unfolding get_base_stable_borrow_rate checked_add
base_rate = refl

pub half_listed : find_params "DAI" market ≡ some reserve
unfolding find_params
half_listed = refl

calculate_interest_rates_agrees_example :
    calc_expected_interest_rates market "DAI"
      (pos (5 * 10 ^ 25))
      (pos (50 * 10 ^ 18))
      (pos (450 * 10 ^ 18))
      (pos (6 * 10 ^ 25))
      (pos (500 * 10 ^ 18))
      (pos (500 * 10 ^ 18 + 0))
    ≡ ok (pos (1282500 * 10 ^ 19), pos (53125 * 10 ^ 21), pos (25 * 10 ^ 24))
calculate_interest_rates_agrees_example =
    calculate_interest_rates_agrees market "DAI" "half" reserve strategy borrowed (500 * 10 ^ 18)
      (5 * 10 ^ 25) (1282500 * 10 ^ 19, 53125 * 10 ^ 21, 25 * 10 ^ 24) (omega arith, omega arith)
      half_listed refl refl base_rate refl rates_of_half
