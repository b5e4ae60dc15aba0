-- ===== src/Calculations/Actions.antt =====
-- The actions on a reserve that test-suites/helpers/actions.ts predicts, each by its function of
-- test-suites/helpers/utils/calculations.ts.
pub mod Frame
pub mod Coherence
pub mod Debt
pub mod Borrow
pub mod Conservation
use rasa_lending_platform_sm.Prelude.Int.{ℤ, pos, ◌+ℤ◌}
use rasa_lending_platform_sm.Prelude.Result.{Result}
use rasa_lending_platform_sm.Types.{SymbolMap, ReserveParams, RateMode}
use rasa_lending_platform_sm.Calculations.Data.{ReserveData, UserReserveData}
use rasa_lending_platform_sm.Calculations.Liquidity.{
  calc_expected_reserve_data_after_deposit, calc_expected_reserve_data_after_withdraw,
  calc_expected_reserve_data_after_mint_unbacked, calc_expected_reserve_data_after_back_unbacked,
}
use rasa_lending_platform_sm.Calculations.Debt.{
  calc_expected_reserve_data_after_borrow, calc_expected_reserve_data_after_repay,
}
use rasa_lending_platform_sm.Calculations.Swap.{
  calc_expected_reserve_data_after_swap_rate_mode,
  calc_expected_reserve_data_after_stable_rate_rebalance,
}

-- `back_unbacked` has the scaled supply, the amount, the fee and the protocol's share of the fee.
pub data Action : Type 0 where
  deposit withdraw mint_unbacked : ℤ → Action
  back_unbacked : ℤ → ℤ → ℤ → ℤ → Action
  borrow repay : ℤ → RateMode → Action
  swap_rate_mode : RateMode → Action
  rebalance_stable_rate : Action

-- The reserve that is expected after an action, at the time `tx` of the transaction and the time
-- `now` of the prediction.
abbrev pub expect_reserve :
    SymbolMap ReserveParams → Action → ReserveData → UserReserveData → ℤ → ℤ → Result ReserveData
expect_reserve ps (deposit amount) before user tx now =
    calc_expected_reserve_data_after_deposit ps amount before tx
expect_reserve ps (withdraw amount) before user tx now =
    calc_expected_reserve_data_after_withdraw ps amount before user tx
expect_reserve ps (mint_unbacked amount) before user tx now =
    calc_expected_reserve_data_after_mint_unbacked ps amount before tx
expect_reserve ps (back_unbacked supply amount fee share) before user tx now =
    calc_expected_reserve_data_after_back_unbacked ps supply amount fee share before tx
expect_reserve ps (borrow amount mode) before user tx now =
    calc_expected_reserve_data_after_borrow ps amount mode before tx now
expect_reserve ps (repay amount mode) before user tx now =
    calc_expected_reserve_data_after_repay ps amount mode before user tx
expect_reserve ps (swap_rate_mode mode) before user tx now =
    calc_expected_reserve_data_after_swap_rate_mode ps before user mode tx
expect_reserve ps rebalance_stable_rate before user tx now =
    calc_expected_reserve_data_after_stable_rate_rebalance ps before user tx
