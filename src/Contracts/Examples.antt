-- ===== src/Contracts/Examples.antt =====
-- The theorems on contracts/protocol/libraries/math at concrete numbers.
use rasa_lending_platform_sm.Prelude.{ℕ, ◌*◌, ◌^◌, ◌≡◌, some, arith}
use rasa_lending_platform_sm.Prelude.Int.{pos}
use rasa_lending_platform_sm.Calculations.Interest.{calc_compounded_interest}
use rasa_lending_platform_sm.Contracts.MathUtils.{calculate_compounded_interest}
use rasa_lending_platform_sm.Contracts.MathUtils.Agreement.{calculate_compounded_interest_agrees}

calculate_compounded_interest_agrees_example :
    (v : ℕ) × (calculate_compounded_interest (5 * 10 ^ 25) 100 90000 ≡ some v)
    × (calc_compounded_interest (pos (5 * 10 ^ 25)) (pos 90000) (pos 100) ≡ pos v)
calculate_compounded_interest_agrees_example =
    calculate_compounded_interest_agrees (5 * 10 ^ 25) 100 90000 (omega arith) (omega arith)
      (omega arith)
