-- ===== src/Scenario/Actions/Supply.antt =====
-- `mint`, `approve`, `deposit`, `supplyWithPermit` and `withdraw` of test-suites/helpers/actions.ts.
pub mod Verdicts
use rasa_lending_platform_sm.Prelude.{◌^◌, Bool, String, Option, none, some}
use rasa_lending_platform_sm.Prelude.Int.{ℤ, pos}
use rasa_lending_platform_sm.Prelude.Result.{Result}
use rasa_lending_platform_sm.Calculations.Data.{ReserveData}
use rasa_lending_platform_sm.Calculations.Liquidity.{
  calc_expected_reserve_data_after_deposit, calc_expected_reserve_data_after_withdraw,
}
use rasa_lending_platform_sm.Calculations.User.{
  calc_expected_user_data_after_deposit, calc_expected_user_data_after_withdraw,
}
use rasa_lending_platform_sm.Scenario.Chain
use rasa_lending_platform_sm.Scenario.Chain.{Chain, Call, Run, pure, asks, continue, ◌>>=◌, ◌>>◌}
use rasa_lending_platform_sm.Scenario.Actions.{
  ContractsData, high_deadline, permit_params, reserve_address, convert_to_currency_decimals,
  value_to_send, amount_or_all, get_contracts_data, wait_for_tx, expect_reverted, by_result,
  get_tx_cost_and_timestamp, expect_predicted,
}

module _ (c : Chain) where
  open c use {State, sign, reserves_params}

  unfoldable pub mint : String → String → String → Run State (Unit {0})
  mint symbol amount user = do
    reserve ← reserve_address c symbol
    minted ← convert_to_currency_decimals c reserve amount
    receipt ← wait_for_tx c user (Call.mint reserve minted)
    pure tt

  unfoldable pub approve : String → String → Run State (Unit {0})
  approve symbol user = do
    reserve ← reserve_address c symbol
    receipt ← wait_for_tx c user (Call.approve reserve (pos (10 ^ 29)))
    pure tt

  -- The two branches of `deposit` and of `supplyWithPermit`, which differ in the call.
  unfoldable pub expect_supply :
      String → ℤ → String → String → Call → String → ContractsData → Run State (Unit {0})
  expect_supply reserve amount sender on_behalf_of call expected before =
      by_result c expected
        (do
          tx ← wait_for_tx c sender call
          after ← get_contracts_data c reserve on_behalf_of sender
          stamp ← get_tx_cost_and_timestamp c tx
          expect_predicted c after
              (calc_expected_reserve_data_after_deposit reserves_params amount before.reserve_data
                stamp.tx_timestamp)
              (λ expected_reserve.
                calc_expected_user_data_after_deposit amount before.reserve_data expected_reserve
                  before.user_data stamp.tx_timestamp))
        (expect_reverted c sender call)

  unfoldable pub deposit :
      String → String → String → String → Option String → String → Run State (Unit {0})
  deposit symbol amount sender on_behalf_of send_value expected = do
    reserve ← reserve_address c symbol
    amount_to_deposit ← convert_to_currency_decimals c reserve amount
    before ← get_contracts_data c reserve on_behalf_of sender
    value ← value_to_send c reserve send_value
    expect_supply reserve amount_to_deposit sender on_behalf_of
        (Call.deposit reserve amount_to_deposit on_behalf_of value) expected before

  unfoldable pub supply_with_permit :
      String → String → String → String → String → Option String → String → Run State (Unit {0})
  supply_with_permit symbol amount sender private_key on_behalf_of send_value expected = do
    reserve ← reserve_address c symbol
    amount_to_deposit ← convert_to_currency_decimals c reserve amount
    params ← asks (λ s. permit_params c s reserve symbol sender amount_to_deposit)
    before ← get_contracts_data c reserve on_behalf_of sender
    value ← value_to_send c reserve send_value
    let call =
        Call.supply_with_permit reserve amount_to_deposit on_behalf_of high_deadline
          (sign private_key params) value
    expect_supply reserve amount_to_deposit sender on_behalf_of call expected before

  unfoldable pub withdraw : String → String → String → String → Run State (Unit {0})
  withdraw symbol amount user expected = do
    reserve ← reserve_address c symbol
    before ← get_contracts_data c reserve user user
    amount_to_withdraw ← amount_or_all c reserve amount
    let call = Call.withdraw reserve amount_to_withdraw user
    by_result c expected
        (do
          tx ← wait_for_tx c user call
          after ← get_contracts_data c reserve user user
          stamp ← get_tx_cost_and_timestamp c tx
          expect_predicted c after
              (calc_expected_reserve_data_after_withdraw reserves_params amount_to_withdraw
                before.reserve_data before.user_data stamp.tx_timestamp)
              (λ expected_reserve.
                calc_expected_user_data_after_withdraw amount_to_withdraw before.reserve_data
                  expected_reserve before.user_data stamp.tx_timestamp))
        (expect_reverted c user call)
