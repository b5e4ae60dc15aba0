-- ===== src/Calculations/Examples/Rates.antt =====
-- The theorems on the interest and the rates of test-suites/helpers/utils/calculations.ts at concrete
-- numbers.
use rasa_lending_platform_sm.Prelude.{ℕ, ◌+◌, ◌*◌, ◌^◌, ◌≤◌, ◌≡◌}
use rasa_lending_platform_sm.Prelude.Int.{pos}
use rasa_lending_platform_sm.Prelude.Result.{ok}
use rasa_lending_platform_sm.Calculations.Rates.{
  calc_expected_interest_rates, calc_expected_overall_borrow_rate,
}
use rasa_lending_platform_sm.Calculations.Rates.Total.{calc_expected_interest_rates_total}
use rasa_lending_platform_sm.Calculations.Examples.Market.{listed, dai_listing}

calc_expected_interest_rates_total_example :
    (liquidity stable variable paid : ℕ) × (calc_expected_interest_rates listed "DAI"
        (pos (5 * 10 ^ 25))
        (pos 1000)
        (pos 3000)
        (pos (5 * 10 ^ 25))
        (pos 5000)
        (pos 5600)
      ≡ ok (pos liquidity, pos stable, pos variable))
    × (calc_expected_overall_borrow_rate (pos 1000) (pos 3000) (pos variable) (pos (5 * 10 ^ 25))
        ≡ ok (pos paid))
    × (0 ≤ variable)
    × (variable ≤ 64 * 10 ^ 25 + 1)
    × (5 * 10 ^ 25 ≤ stable)
    × (liquidity ≤ paid)
calc_expected_interest_rates_total_example =
    calc_expected_interest_rates_total listed "DAI" dai_listing (5 * 10 ^ 25) 1000 3000
      (5 * 10 ^ 25) 5000 600
