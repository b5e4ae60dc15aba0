-- ===== src/Scenario/Actions/Debt/Verdicts.antt =====
-- When `borrow` and `repay` of test-suites/helpers/actions.ts pass.
use rasa_lending_platform_sm.Prelude.{◌≡◌, ◌↔◌, false, String, Option}
use rasa_lending_platform_sm.Prelude.Int.{ℤ}
use rasa_lending_platform_sm.Prelude.Result.{ok}
use rasa_lending_platform_sm.Calculations.Debt.{calc_expected_reserve_data_after_repay}
use rasa_lending_platform_sm.Calculations.UserDebt.{calc_expected_user_data_after_repay}
use rasa_lending_platform_sm.Scenario.Chain.{Chain, Call}
use rasa_lending_platform_sm.Scenario.Chain.Reading.{Reading, reading_iff, Stepping, stepping_iff}
use rasa_lending_platform_sm.Scenario.Actions.{
  ContractsData, mode_of, reserve_address, value_to_send, amount_or_all, get_contracts_data,
  get_tx_cost_and_timestamp, expect_reverted, travel,
}
use rasa_lending_platform_sm.Scenario.Actions.Passing.{
  Predicted, Mined, Refused, Verdict, expect_predicted_iff, mined_iff, expect_reverted_iff,
  by_result_iff,
}
use rasa_lending_platform_sm.Scenario.Actions.Reads.{
  reserve_address-Reads, amount_or_all-Reads, value_to_send-Reads, get_contracts_data-Reads,
  get_tx_cost_and_timestamp-Reads,
}
use rasa_lending_platform_sm.Scenario.Actions.Debt.{expect_repayment, repay}

module _ (c : Chain) where
  open c use {State, send, reserves_params, skip_integrity_check}

  -- The repayment is mined, and the contracts agree with what is predicted of it.
  abbrev RepaymentPredicted :
      String → ℤ → String → String → String → Call → ContractsData → State → State → Type 0
  RepaymentPredicted reserve amount mode user on_behalf_of call before s t =
      Mined c user call s (λ tx u. Reading (get_tx_cost_and_timestamp c tx) u (λ stamp.
        Reading (get_contracts_data c reserve on_behalf_of on_behalf_of) u (λ after.
          (u ≡ t)
          × Predicted c after
              (calc_expected_reserve_data_after_repay reserves_params amount (mode_of mode)
                before.reserve_data before.user_data stamp.tx_timestamp)
              (λ expected_reserve.
                calc_expected_user_data_after_repay amount (mode_of mode) before.reserve_data
                  expected_reserve before.user_data user on_behalf_of stamp.tx_timestamp
                  after.timestamp))))

  expect_repayment_iff :
      (reserve : String) (amount : ℤ) (mode user on_behalf_of : String) (call : Call)
      (expected : String) (before : ContractsData) (s t : State)
      → skip_integrity_check ≡ false
      → (expect_repayment c reserve amount mode user on_behalf_of call expected before s
          ≡ ok (tt, t))
        ↔ Verdict c expected
            (RepaymentPredicted reserve amount mode user on_behalf_of call before s t)
            (Refused c user call s t)
            s
            t
  unfolding expect_repayment
  expect_repayment_iff reserve amount mode user on_behalf_of call expected before s t h =
      by_result_iff c expected _ (expect_reverted c user call) _ _ s t
        (mined_iff c user call _ _ s t (λ tx u.
          reading_iff (get_tx_cost_and_timestamp c tx) _ _ u t tt
            (get_tx_cost_and_timestamp-Reads c tx)
            (λ stamp.
              reading_iff (get_contracts_data c reserve on_behalf_of on_behalf_of) _ _ u t tt
                (get_contracts_data-Reads c reserve on_behalf_of on_behalf_of)
                (λ after. expect_predicted_iff c after _ _ u t h))))
        (expect_reverted_iff c user call s t)

  -- The steps of a repayment that passes: the chain first travels in time.
  abbrev pub RepaymentPasses :
      String
      → String
      → String
      → String
      → String
      → Option String
      → String
      → Option String
      → State
      → State
      → Type 0
  RepaymentPasses symbol amount mode user on_behalf_of send_value expected time_travel s t =
      Reading (reserve_address c symbol) s (λ reserve.
        Reading (get_contracts_data c reserve on_behalf_of on_behalf_of) s (λ before.
          Reading (amount_or_all c reserve amount) s (λ repaid.
            Reading (value_to_send c reserve send_value) s (λ value.
              Stepping (travel c time_travel) s (λ _ later.
                let call = Call.repay reserve repaid mode on_behalf_of value in
                Verdict c expected
                  (RepaymentPredicted reserve repaid mode user on_behalf_of call before later t)
                  (Refused c user call later t) later t)))))

  -- With the comparison switched on, `repay` passes exactly if the reserve, the data before, the amount
  -- and the value to send can be read, the chain travels in time, and then: under "success" the
  -- repayment is mined, the stamp and the data after it can be read, both predictions are defined,
  -- and reserve and user agree with them up to three units; under "revert" the repayment is refused;
  -- under any other text nothing follows the time travel.
  pub repay_iff :
      (symbol amount mode user on_behalf_of : String) (send_value : Option String)
      (expected : String) (time_travel : Option String) (s t : State)
      → skip_integrity_check ≡ false
      → (repay c symbol amount mode user on_behalf_of send_value expected time_travel s
          ≡ ok (tt, t))
        ↔ RepaymentPasses symbol amount mode user on_behalf_of send_value expected time_travel s t
  unfolding repay
  repay_iff symbol amount mode user on_behalf_of send_value expected time_travel s t h =
      reading_iff (reserve_address c symbol) _ _ s t tt (reserve_address-Reads c symbol) (λ reserve.
        reading_iff (get_contracts_data c reserve on_behalf_of on_behalf_of) _ _ s t tt
          (get_contracts_data-Reads c reserve on_behalf_of on_behalf_of)
          (λ before.
            reading_iff (amount_or_all c reserve amount) _ _ s t tt
              (amount_or_all-Reads c reserve amount)
              (λ repaid.
                reading_iff (value_to_send c reserve send_value) _ _ s t tt
                  (value_to_send-Reads c reserve send_value)
                  (λ value. stepping_iff (travel c time_travel) _ _ s t tt (λ _ later.
                    expect_repayment_iff reserve repaid mode user on_behalf_of
                      (Call.repay reserve repaid mode on_behalf_of value) expected before later t
                      h)))))
