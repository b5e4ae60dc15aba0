-- ===== src/Scenario/Actions/Debt.antt =====
-- `delegateBorrowAllowance`, `borrow`, `repay` and `repayWithPermit` of test-suites/helpers/actions.ts.
pub mod Verdicts
pub mod Borrowing
use text.Mathlib.Text.{◌==◌ as str_eq}
use rasa_lending_platform_sm.Prelude.{String, Option, none, some, Bool, ◌&&◌, if◌then◌else◌}
use rasa_lending_platform_sm.Prelude.Int.{ℤ, ◌-ℤ◌, eqb_ℤ}
use rasa_lending_platform_sm.Prelude.Result.{Result, ok, err, reverted, assertion_failed}
use rasa_lending_platform_sm.Prelude.Result
use rasa_lending_platform_sm.Calculations.Debt.{
  calc_expected_reserve_data_after_borrow, calc_expected_reserve_data_after_repay,
}
use rasa_lending_platform_sm.Calculations.UserDebt.{
  calc_expected_user_data_after_borrow, calc_expected_user_data_after_repay,
}
use rasa_lending_platform_sm.Scenario.Chain.{
  Chain, Call, Receipt, Outcome, mined, refused, Promise, fulfilled, rejected, Run, pure, lift,
  asks, throw, continue, ◌>>=◌, ◌>>◌,
}
use rasa_lending_platform_sm.Scenario.Actions.{
  ContractsData, high_deadline, permit_params, given, mode_of, reserve_address,
  convert_to_currency_decimals, value_to_send, amount_or_all, get_contracts_data, wait_for_tx,
  expect_reverted, by_result, get_tx_cost_and_timestamp, travel, expect_predicted,
}

module _ (c : Chain) where
  open c use {
    State, stable_debt_token, variable_debt_token, borrow_allowance, send, sign, reserves_params,
  }

  -- The debt token of a rate mode.
  unfoldable pub debt_token : String → String → Run State String
  debt_token reserve mode =
      if str_eq mode "1"
      then asks (λ s. stable_debt_token s reserve)
      else asks (λ s. variable_debt_token s reserve)

  -- A transaction that is sent, and whose promise is looked at later.
  unfoldable pub submit : String → Call → Run State Promise
  submit sender call s = elim (send s sender call) [
    | mined receipt s' ↦ ok (fulfilled receipt, s')
    | refused reason s' ↦ ok (rejected reason, s')
  ]

  abbrev pub await_tx : Promise → Run State Receipt
  await_tx (fulfilled receipt) = pure receipt
  await_tx (rejected reason) = throw reverted

  -- `expect(promise).to.be.reverted`, and `revertedWith` a message.
  abbrev pub await_reverted : Promise → Run State (Unit {0})
  await_reverted (fulfilled receipt) = throw assertion_failed
  await_reverted (rejected reason) = pure tt

  abbrev pub await_reverted_with : Promise → String → Run State (Unit {0})
  await_reverted_with (fulfilled receipt) message = throw assertion_failed
  await_reverted_with (rejected reason) message =
      lift (Result.guard (str_eq reason message) assertion_failed)

  -- `if (expectedResult === 'revert' && revertMessage)`.
  abbrev awaited_message : String → Option String → Option String
  awaited_message expected none = none
  awaited_message expected (some message) =
      if str_eq expected "revert" && given (some message) then some message else none

  unfoldable pub check_delegation :
      Option String → Promise → String → String → String → ℤ → Run State (Unit {0})
  check_delegation (some message) promise token user receiver amount =
      await_reverted_with promise message
  check_delegation none promise token user receiver amount = do
    receipt ← await_tx promise
    allowance ← asks (λ s. borrow_allowance s token user receiver)
    lift (Result.guard (eqb_ℤ allowance amount) assertion_failed)

  unfoldable pub delegate_borrow_allowance :
      String → String → String → String → String → String → Option String → Run State (Unit {0})
  delegate_borrow_allowance symbol amount mode user receiver expected revert_message = do
    reserve ← reserve_address c symbol
    amount_to_delegate ← convert_to_currency_decimals c reserve amount
    token ← debt_token reserve mode
    promise ← submit user (Call.approve_delegation token receiver amount_to_delegate)
    check_delegation (awaited_message expected revert_message) promise token user receiver
        amount_to_delegate

  -- Borrowing for another user takes the amount off the allowance.
  unfoldable pub expect_allowance : String → String → String → ℤ → ℤ → Run State (Unit {0})
  expect_allowance token on_behalf_of user before amount =
      if str_eq user on_behalf_of then pure tt else (do
        after ← asks (λ s. borrow_allowance s token on_behalf_of user)
        lift (Result.guard (eqb_ℤ after (before -ℤ amount)) assertion_failed))

  unfoldable pub borrow :
      String → String → String → String → String → Option String → String → Run State (Unit {0})
  borrow symbol amount mode user on_behalf_of time_travel expected = do
    reserve ← reserve_address c symbol
    before ← get_contracts_data c reserve on_behalf_of user
    token ← debt_token reserve mode
    allowance_before ← asks (λ s. borrow_allowance s token on_behalf_of user)
    amount_to_borrow ← convert_to_currency_decimals c reserve amount
    promise ← submit user (Call.borrow reserve amount_to_borrow mode on_behalf_of)
    by_result c expected
        (do
          tx ← await_tx promise
          stamp ← get_tx_cost_and_timestamp c tx
          travel c time_travel
          after ← get_contracts_data c reserve on_behalf_of user
          expect_predicted c after
              (calc_expected_reserve_data_after_borrow reserves_params amount_to_borrow
                (mode_of mode) before.reserve_data stamp.tx_timestamp after.timestamp)
              (λ expected_reserve.
                calc_expected_user_data_after_borrow amount_to_borrow (mode_of mode)
                  before.reserve_data expected_reserve before.user_data stamp.tx_timestamp
                  after.timestamp)
          expect_allowance token on_behalf_of user allowance_before amount_to_borrow)
        (await_reverted promise)

  -- The two branches of `repay` and of `repayWithPermit`, which differ in the call.
  unfoldable pub expect_repayment :
      String → ℤ → String → String → String → Call → String → ContractsData → Run State (Unit {0})
  expect_repayment reserve amount mode user on_behalf_of call expected before =
      by_result c expected
        (do
          tx ← wait_for_tx c user call
          stamp ← get_tx_cost_and_timestamp c tx
          after ← get_contracts_data c reserve on_behalf_of on_behalf_of
          expect_predicted c after
              (calc_expected_reserve_data_after_repay reserves_params amount (mode_of mode)
                before.reserve_data before.user_data stamp.tx_timestamp)
              (λ expected_reserve.
                calc_expected_user_data_after_repay amount (mode_of mode) before.reserve_data
                  expected_reserve before.user_data user on_behalf_of stamp.tx_timestamp
                  after.timestamp))
        (expect_reverted c user call)

  unfoldable pub repay :
      String
      → String
      → String
      → String
      → String
      → Option String
      → String
      → Option String
      → Run State (Unit {0})
  repay symbol amount mode user on_behalf_of send_value expected time_travel = do
    reserve ← reserve_address c symbol
    before ← get_contracts_data c reserve on_behalf_of on_behalf_of
    amount_to_repay ← amount_or_all c reserve amount
    value ← value_to_send c reserve send_value
    travel c time_travel
    expect_repayment reserve amount_to_repay mode user on_behalf_of
        (Call.repay reserve amount_to_repay mode on_behalf_of value) expected before

  unfoldable pub repay_with_permit :
      String
      → String
      → String
      → String
      → String
      → String
      → Option String
      → String
      → Run State (Unit {0})
  repay_with_permit symbol amount mode user private_key on_behalf_of send_value expected = do
    reserve ← reserve_address c symbol
    before ← get_contracts_data c reserve on_behalf_of on_behalf_of
    amount_to_repay ← amount_or_all c reserve amount
    params ← asks (λ s. permit_params c s reserve symbol user amount_to_repay)
    value ← value_to_send c reserve send_value
    let call =
        Call.repay_with_permit reserve amount_to_repay mode on_behalf_of high_deadline
          (sign private_key params) value
    expect_repayment reserve amount_to_repay mode user on_behalf_of call expected before
