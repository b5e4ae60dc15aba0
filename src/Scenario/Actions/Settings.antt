-- ===== src/Scenario/Actions/Settings.antt =====
-- `setUseAsCollateral`, `swapBorrowRateMode` and `rebalanceStableBorrowRate` of
-- test-suites/helpers/actions.ts.
pub mod Verdicts
use Prim.Native.Char.{code}
use Prim.Native.String
use rasa_lending_platform_sm.Prelude.{
  ℕ, ◌+◌, String, Bool, true, false, ◌&&◌, List, [], ◌∷◌, map, leb, ◌==◌, if◌then◌else◌,
}
use rasa_lending_platform_sm.Prelude.Result.{Result, ok}
use rasa_lending_platform_sm.Calculations.User.{calc_expected_user_data_after_set_use_as_collateral}
use rasa_lending_platform_sm.Calculations.UserDebt.{
  calc_expected_user_data_after_swap_rate_mode, calc_expected_user_data_after_stable_rate_rebalance,
}
use rasa_lending_platform_sm.Calculations.Swap.{
  calc_expected_reserve_data_after_swap_rate_mode,
  calc_expected_reserve_data_after_stable_rate_rebalance,
}
use rasa_lending_platform_sm.Scenario.Chain.{Chain, Call, Run, continue, ◌>>=◌, ◌>>◌}
use rasa_lending_platform_sm.Scenario.Actions.{
  mode_of, reserve_address, get_contracts_data, wait_for_tx, expect_reverted, by_result,
  get_tx_cost_and_timestamp, expect_equal_user, expect_predicted,
}

-- The code points of a text.
abbrev pub codes : String → List ℕ
codes String.[] = []
codes (String.◌∷◌ c s) = code c ∷ codes s

unfoldable pub to_lower : ℕ → ℕ
to_lower c = if leb b'A' c && leb c b'Z' then c + 32 else c

abbrev pub same_codes : List ℕ → List ℕ → Bool
same_codes [] [] = true
same_codes [] (d ∷ ds) = false
same_codes (c ∷ cs) [] = false
same_codes (c ∷ cs) (d ∷ ds) = c == d && same_codes cs ds

-- `text.toLowerCase() === 'true'`. Only ASCII letters become ASCII letters of "true".
unfoldable pub is_true : String → Bool
unfolding to_lower
is_true text = same_codes (map to_lower (codes text)) (codes "true")

module _ (c : Chain) where
  open c use {State, reserves_params}

  unfoldable pub set_use_as_collateral : String → String → String → String → Run State (Unit {0})
  set_use_as_collateral symbol user use_as_collateral expected = do
    reserve ← reserve_address c symbol
    before ← get_contracts_data c reserve user user
    let call = Call.set_use_as_collateral reserve (is_true use_as_collateral)
    by_result c expected
        (do
          tx ← wait_for_tx c user call
          stamp ← get_tx_cost_and_timestamp c tx
          after ← get_contracts_data c reserve user user
          expect_equal_user c after.user_data (
              calc_expected_user_data_after_set_use_as_collateral (is_true use_as_collateral)
                before.reserve_data before.user_data))
        (expect_reverted c user call)

  unfoldable pub swap_borrow_rate_mode : String → String → String → String → Run State (Unit {0})
  swap_borrow_rate_mode symbol user mode expected = do
    reserve ← reserve_address c symbol
    before ← get_contracts_data c reserve user user
    let call = Call.swap_borrow_rate_mode reserve mode
    by_result c expected
        (do
          tx ← wait_for_tx c user call
          stamp ← get_tx_cost_and_timestamp c tx
          after ← get_contracts_data c reserve user user
          expect_predicted c after
              (calc_expected_reserve_data_after_swap_rate_mode reserves_params before.reserve_data
                before.user_data (mode_of mode) stamp.tx_timestamp)
              (λ expected_reserve.
                calc_expected_user_data_after_swap_rate_mode before.reserve_data expected_reserve
                  before.user_data (mode_of mode) stamp.tx_timestamp))
        (expect_reverted c user call)

  unfoldable pub rebalance_stable_borrow_rate :
      String → String → String → String → Run State (Unit {0})
  rebalance_stable_borrow_rate symbol user target expected = do
    reserve ← reserve_address c symbol
    before ← get_contracts_data c reserve target target
    let call = Call.rebalance_stable_borrow_rate reserve target
    by_result c expected
        (do
          tx ← wait_for_tx c user call
          stamp ← get_tx_cost_and_timestamp c tx
          after ← get_contracts_data c reserve target target
          expect_predicted c after
              (calc_expected_reserve_data_after_stable_rate_rebalance reserves_params
                before.reserve_data before.user_data stamp.tx_timestamp)
              (λ expected_reserve.
                calc_expected_user_data_after_stable_rate_rebalance before.reserve_data
                  expected_reserve before.user_data stamp.tx_timestamp))
        (expect_reverted c user call)
