-- ===== src/Calculations/Actions/Debt.antt =====
-- The actions of test-suites/helpers/utils/calculations.ts that move debt: they too move the
-- liquidity that they name, and leave a reserve whose totals and ratios fit.
use rasa_lending_platform_sm.Prelude.{◌≡◌, ◌∙◌, some, arith, if◌then◌else◌}
use rasa_lending_platform_sm.Prelude.Int.{ℤ, pos}
use rasa_lending_platform_sm.Prelude.Result.{ok, >>=-eq-ok, defined}
use rasa_lending_platform_sm.Types.{SymbolMap, ReserveParams, RateMode}
use rasa_lending_platform_sm.Calculations.Data.{ReserveData, UserReserveData}
use rasa_lending_platform_sm.Calculations.State.{
  set_usage_ratios, set_rates, calc_expected_variable_debt_token_balance,
}
use rasa_lending_platform_sm.Calculations.Debt.{
  is_stable, stable_balance_of, amount_to_repay, repay_stable, repay_variable,
  calc_expected_reserve_data_after_repay,
}
use rasa_lending_platform_sm.Calculations.Swap.{
  swap_to_variable, swap_to_stable, calc_expected_reserve_data_after_swap_rate_mode,
  rebalance_average, calc_expected_reserve_data_after_stable_rate_rebalance,
}
use rasa_lending_platform_sm.Calculations.Actions.Frame.{
  set_usage_ratios-Frame, set_rates-Frame, update_total-IsCoherent, finish_reserve-IsCoherent,
}
use rasa_lending_platform_sm.Calculations.Actions.Coherence.{
  Moves, finish-Moves, step_one, step_two,
}

module _ (ps : SymbolMap ReserveParams) (before : ReserveData) (t : ℤ) where
  repay_stable-keeps :
      (amount : ℤ) (user : UserReserveData) (x : ReserveData) {y : ReserveData}
      → repay_stable amount before user x t ≡ ok y
      → y.available_liquidity ≡ x.available_liquidity
  unfolding repay_stable
  repay_stable-keeps amount user x h = ground arith

  repay_variable-keeps :
      (amount : ℤ) (x : ReserveData) {y : ReserveData}
      → repay_variable amount before x ≡ ok y
      → y.available_liquidity ≡ x.available_liquidity
  unfolding repay_variable
  repay_variable-keeps amount x h = ground arith

  repay-keeps :
      (mode : RateMode) (amount : ℤ) (user : UserReserveData) (x : ReserveData) {y : ReserveData}
      → (if is_stable mode
          then repay_stable amount before user x t
          else repay_variable amount before x)
        ≡ ok y
      → y.available_liquidity ≡ x.available_liquidity
  repay-keeps RateMode.none amount user x h = repay_variable-keeps amount x h
  repay-keeps RateMode.stable amount user x h = repay_stable-keeps amount user x h
  repay-keeps RateMode.variable amount user x h = repay_variable-keeps amount x h

  pub repay-Moves :
      (asked : ℤ) (mode : RateMode) (user : UserReserveData) {e : ReserveData}
      → calc_expected_reserve_data_after_repay ps asked mode before user t ≡ ok e
      → (stable variable : ℤ) × (stable_balance_of user t ≡ ok stable)
        × (calc_expected_variable_debt_token_balance before user t ≡ ok variable)
        × Moves before (amount_to_repay asked mode stable variable) (pos 0) e
  unfolding calc_expected_reserve_data_after_repay
  repay-Moves asked mode user h =
      let (stable, is_stable_debt, h₁) = >>=-eq-ok (stable_balance_of user t) _ h in
      let (variable, is_variable_debt, h₂) =
        >>=-eq-ok (calc_expected_variable_debt_token_balance before user t) _ h₁ in
      let amount = amount_to_repay asked mode stable variable in
      let (x, _, h₃) = >>=-eq-ok (step_one ps before t) _ h₂ in
      let (funded, moved, h₄) = >>=-eq-ok (step_two ps before t x amount (pos 0)) _ h₃ in
      let (settled, repaid, h₅) =
        >>=-eq-ok
          (if is_stable mode
            then repay_stable amount before user funded t
            else repay_variable amount before funded)
          _ h₄ in
      let (rated, ratios, h₆) = >>=-eq-ok (set_usage_ratios settled) _ h₅ in
      let (s, _, h₇) = >>=-eq-ok (defined rated.total_stable_debt) _ h₆ in
      let (v, _, h₈) = >>=-eq-ok (defined rated.total_variable_debt) _ h₇ in
      let (priced, rates, h₉) = >>=-eq-ok (set_rates ps before s v rated) _ h₈ in
      let y = record priced { last_update_timestamp = some t } in
      let same =
        (set_rates-Frame ps before s v rated rates).0
        ∙ (set_usage_ratios-Frame settled ratios).0
        ∙ repay-keeps mode amount user funded repaid in
      (
        stable,
        variable,
        is_stable_debt,
        is_variable_debt,
        finish-Moves ps before t x funded y amount (pos 0) moved same
            (update_total-IsCoherent y h₉),
      )

  swap-keeps :
      (mode : RateMode) (stable variable : ℤ) (user : UserReserveData) (x : ReserveData)
      {y : ReserveData}
      → (if is_stable mode
          then swap_to_variable stable before user x
          else swap_to_stable variable before x)
        ≡ ok y
      → y.available_liquidity ≡ x.available_liquidity
  unfolding swap_to_variable swap_to_stable
  swap-keeps RateMode.none stable variable user x h = ground arith
  swap-keeps RateMode.stable stable variable user x h = ground arith
  swap-keeps RateMode.variable stable variable user x h = ground arith

  pub swap-Moves :
      (mode : RateMode) (user : UserReserveData) {e : ReserveData}
      → calc_expected_reserve_data_after_swap_rate_mode ps before user mode t ≡ ok e
      → Moves before (pos 0) (pos 0) e
  unfolding calc_expected_reserve_data_after_swap_rate_mode
  swap-Moves mode user h =
      let (x, _, h₁) = >>=-eq-ok (step_one ps before t) _ h in
      let (funded, moved, h₂) = >>=-eq-ok (step_two ps before t x (pos 0) (pos 0)) _ h₁ in
      let (variable, _, h₃) =
        >>=-eq-ok (calc_expected_variable_debt_token_balance before user t) _ h₂ in
      let (stable, _, h₄) = >>=-eq-ok (stable_balance_of user t) _ h₃ in
      let (swapped, swaps, h₅) =
        >>=-eq-ok
          (if is_stable mode
            then swap_to_variable stable before user funded
            else swap_to_stable variable before funded)
          _ h₄ in
      let (y, ratios, h₆) = >>=-eq-ok (set_usage_ratios swapped) _ h₅ in
      finish-Moves ps before t x funded y (pos 0) (pos 0) moved
        ((set_usage_ratios-Frame swapped ratios).0
          ∙ swap-keeps mode stable variable user funded swaps)
        (finish_reserve-IsCoherent ps before y h₆)

  rebalance-keeps :
      (debt : ℤ) (user : UserReserveData) (x : ReserveData) {y : ReserveData}
      → rebalance_average debt before user x t ≡ ok y
      → y.available_liquidity ≡ x.available_liquidity
  unfolding rebalance_average
  rebalance-keeps debt user x h = ground arith

  pub rebalance-Moves :
      (user : UserReserveData) {e : ReserveData}
      → calc_expected_reserve_data_after_stable_rate_rebalance ps before user t ≡ ok e
      → Moves before (pos 0) (pos 0) e
  unfolding calc_expected_reserve_data_after_stable_rate_rebalance
  rebalance-Moves user h =
      let (x, _, h₁) = >>=-eq-ok (step_one ps before t) _ h in
      let (funded, moved, h₂) = >>=-eq-ok (step_two ps before t x (pos 0) (pos 0)) _ h₁ in
      let (debt, _, h₃) = >>=-eq-ok (stable_balance_of user t) _ h₂ in
      let (rebalanced, rebalances, h₄) =
        >>=-eq-ok (rebalance_average debt before user funded t) _ h₃ in
      let (y, ratios, h₅) = >>=-eq-ok (set_usage_ratios rebalanced) _ h₄ in
      finish-Moves ps before t x funded y (pos 0) (pos 0) moved
        ((set_usage_ratios-Frame rebalanced ratios).0 ∙ rebalance-keeps debt user funded rebalances)
        (finish_reserve-IsCoherent ps before y h₅)
