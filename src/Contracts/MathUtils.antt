-- ===== src/Contracts/MathUtils.antt =====
-- contracts/protocol/libraries/math/MathUtils.sol. The compiler's checked arithmetic reverts, which
-- is `none`; an `unchecked` operation wraps. The block's timestamp is an argument.
pub mod Agreement
use mathlib.Core.Option
use rasa_lending_platform_sm.Prelude.{
  ℕ, ◌+◌, ◌-◌, ◌*◌, ◌/◌, ◌%◌, Option, none, some, ltb, leb, ◌==◌, if◌then◌else◌,
}
use rasa_lending_platform_sm.WadRayMath.{ray}
use rasa_lending_platform_sm.Contracts.WadRayMath.{word, max_word, ray_mul}

abbrev pub seconds_per_year : ℕ
seconds_per_year = 31536000

infixl 5 ◌>>=◌
abbrev pub ◌>>=◌ : {A B : Type 0} → Option A → (A → Option B) → Option B
none >>= f = none
some a >>= f = f a

unfoldable pub checked_add : ℕ → ℕ → Option ℕ
checked_add a b = if leb (a + b) max_word then some (a + b) else none

unfoldable pub checked_sub : ℕ → ℕ → Option ℕ
checked_sub a b = if leb b a then some (a - b) else none

unfoldable pub checked_mul : ℕ → ℕ → Option ℕ
checked_mul a b = if leb (a * b) max_word then some (a * b) else none

unfoldable pub calculate_linear_interest : ℕ → ℕ → ℕ → Option ℕ
calculate_linear_interest rate last_update_timestamp block_timestamp = do
  time ← checked_sub block_timestamp last_update_timestamp
  result ← checked_mul rate time
  checked_add ray (result / seconds_per_year)

-- What follows the test for a time difference of zero.
unfoldable pub compound_terms : ℕ → ℕ → Option ℕ
compound_terms rate exp = do
  let exp_minus_one = exp - 1
  let exp_minus_two = if ltb 2 exp then exp - 2 else 0
  squared ← ray_mul rate rate
  let base_power_two = squared / (seconds_per_year * seconds_per_year % word)
  cubed ← ray_mul base_power_two rate
  let base_power_three = cubed / seconds_per_year
  pairs ← checked_mul exp exp_minus_one
  second ← checked_mul pairs base_power_two
  triples ← checked_mul pairs exp_minus_two
  third ← checked_mul triples base_power_three
  linear ← checked_mul rate exp
  one ← checked_add ray (linear / seconds_per_year)
  two ← checked_add one (second / 2)
  checked_add two (third / 6)

unfoldable pub calculate_compounded_interest : ℕ → ℕ → ℕ → Option ℕ
calculate_compounded_interest rate last_update_timestamp current_timestamp = do
  exp ← checked_sub current_timestamp last_update_timestamp
  if exp == 0 then some ray else compound_terms rate exp
