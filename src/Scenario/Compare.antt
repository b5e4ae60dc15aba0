-- ===== src/Scenario/Compare.antt =====
-- `almostEqualOrEqual` of test-suites/helpers/actions.ts. It walks over the keys of the actual data, so
-- a key that is missing there is not compared; one that is missing in the expected data throws at its
-- first use, since the check of it that stands before has no assertion.
pub mod Tolerance
use text.Mathlib.Text.{◌==◌ as str_eq}
use rasa_lending_platform_sm.Prelude.{
  Bool, ◌||◌, not, true, false, String, Option, none, some, List, [], ◌∷◌, ◌==◌, if◌then◌else◌,
}
use rasa_lending_platform_sm.Prelude.Int.{ℤ, pos, ◌+ℤ◌, eqb_ℤ}
use rasa_lending_platform_sm.Prelude.Result.{
  Result, ok, err, ◌>>=◌, ◌>>◌, guard, undefined_value, assertion_failed,
}
use rasa_lending_platform_sm.Calculations.Data.{ReserveData, UserReserveData}

-- The seven tests of two numbers.
unfoldable pub almost_equal : ℤ → ℤ → Bool
almost_equal actual expected =
    eqb_ℤ actual expected
    || eqb_ℤ (actual +ℤ pos 1) expected
    || eqb_ℤ actual (expected +ℤ pos 1)
    || eqb_ℤ (actual +ℤ pos 2) expected
    || eqb_ℤ actual (expected +ℤ pos 2)
    || eqb_ℤ (actual +ℤ pos 3) expected
    || eqb_ℤ actual (expected +ℤ pos 3)

unfoldable pub compare_with {ℓ} :
    {T : Type ℓ} → (T → T → Bool) → Option T → Option T → Result (Unit {0})
compare_with test none expected = ok tt
compare_with test (some actual) none = err undefined_value
compare_with test (some actual) (some expected) = guard (test actual expected) assertion_failed

unfoldable pub compare_numbers : List (Option ℤ) → List (Option ℤ) → Result (Unit {0})
compare_numbers [] es = ok tt
compare_numbers (a ∷ rest) [] = ok tt
compare_numbers (a ∷ rest) (e ∷ es) = do compare_with almost_equal a e; compare_numbers rest es

abbrev pub same_flag : Bool → Bool → Bool
same_flag true b = b
same_flag false b = not b

-- The keys of a reserve that are compared as numbers, in the order of `getReserveData`.
abbrev pub reserve_numbers : ReserveData → List (Option ℤ)
reserve_numbers d =
    d.reserve_factor ∷ d.unbacked ∷ d.accrued_to_treasury_scaled ∷ d.available_liquidity
    ∷ d.total_liquidity ∷ d.borrow_usage_ratio ∷ d.supply_usage_ratio ∷ d.total_stable_debt
    ∷ d.total_variable_debt ∷ d.liquidity_rate ∷ d.variable_borrow_rate ∷ d.stable_borrow_rate
    ∷ d.average_stable_borrow_rate ∷ d.liquidity_index ∷ d.variable_borrow_index
    ∷ d.principal_stable_debt ∷ d.scaled_variable_debt ∷ []

unfoldable pub compare_reserves : ReserveData → ReserveData → Result (Unit {0})
compare_reserves actual expected = do
  compare_numbers (reserve_numbers actual) (reserve_numbers expected)
  compare_with str_eq actual.address expected.address

-- The numbers of a user before and after the flag, in the order of `getUserData`.
abbrev pub user_numbers : UserReserveData → List (Option ℤ)
user_numbers d =
    d.scaled_rs_token_balance ∷ d.current_rs_token_balance ∷ d.current_stable_debt
    ∷ d.current_variable_debt ∷ d.principal_stable_debt ∷ d.scaled_variable_debt
    ∷ d.stable_borrow_rate ∷ d.liquidity_rate ∷ []

abbrev pub last_user_numbers : UserReserveData → List (Option ℤ)
last_user_numbers d =
    d.stable_rate_last_updated ∷ d.wallet_balance ∷ d.variable_borrow_index
    ∷ d.principal_variable_debt ∷ []

unfoldable pub compare_users : UserReserveData → UserReserveData → Result (Unit {0})
compare_users actual expected = do
  compare_numbers (user_numbers actual) (user_numbers expected)
  compare_with same_flag actual.usage_as_collateral_enabled expected.usage_as_collateral_enabled
  compare_numbers (last_user_numbers actual) (last_user_numbers expected)
