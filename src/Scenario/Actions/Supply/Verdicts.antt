-- ===== src/Scenario/Actions/Supply/Verdicts.antt =====
-- When `deposit`, `supplyWithPermit` and `withdraw` of test-suites/helpers/actions.ts pass.
use rasa_lending_platform_sm.Prelude.{◌≡◌, ◌↔◌, false, String, Option}
use rasa_lending_platform_sm.Prelude.Int.{ℤ}
use rasa_lending_platform_sm.Prelude.Result.{ok}
use rasa_lending_platform_sm.Calculations.Liquidity.{
  calc_expected_reserve_data_after_deposit, calc_expected_reserve_data_after_withdraw,
}
use rasa_lending_platform_sm.Calculations.User.{
  calc_expected_user_data_after_deposit, calc_expected_user_data_after_withdraw,
}
use rasa_lending_platform_sm.Scenario.Chain.{Chain, Call}
use rasa_lending_platform_sm.Scenario.Chain.Reading.{Reading, reading_iff}
use rasa_lending_platform_sm.Scenario.Actions.{
  ContractsData, reserve_address, convert_to_currency_decimals, value_to_send, amount_or_all,
  get_contracts_data, get_tx_cost_and_timestamp, high_deadline, permit_params, expect_reverted,
}
use rasa_lending_platform_sm.Scenario.Actions.Passing.{
  Predicted, Mined, Refused, Verdict, expect_predicted_iff, mined_iff, expect_reverted_iff,
  by_result_iff,
}
use rasa_lending_platform_sm.Scenario.Actions.Reads.{
  reserve_address-Reads, convert_to_currency_decimals-Reads, amount_or_all-Reads,
  value_to_send-Reads, get_contracts_data-Reads, get_tx_cost_and_timestamp-Reads,
}
use rasa_lending_platform_sm.Scenario.Actions.Supply.{
  expect_supply, deposit, supply_with_permit, withdraw,
}

module _ (c : Chain) where
  open c use {State, sign, send, reserves_params, skip_integrity_check}

  -- The supply is mined, and the contracts agree with what is predicted of it.
  abbrev SupplyPredicted :
      String → ℤ → String → String → Call → ContractsData → State → State → Type 0
  SupplyPredicted reserve amount sender on_behalf_of call before s t =
      Mined c sender call s (λ tx u.
        Reading (get_contracts_data c reserve on_behalf_of sender) u (λ after.
          Reading (get_tx_cost_and_timestamp c tx) u (λ stamp.
            (u ≡ t)
            × Predicted c after
                (calc_expected_reserve_data_after_deposit reserves_params amount before.reserve_data
                  stamp.tx_timestamp)
                (λ expected_reserve.
                  calc_expected_user_data_after_deposit amount before.reserve_data expected_reserve
                    before.user_data stamp.tx_timestamp))))

  expect_supply_iff :
      (reserve : String) (amount : ℤ) (sender on_behalf_of : String) (call : Call)
      (expected : String) (before : ContractsData) (s t : State)
      → skip_integrity_check ≡ false
      → (expect_supply c reserve amount sender on_behalf_of call expected before s ≡ ok (tt, t))
        ↔ Verdict c expected
            (SupplyPredicted reserve amount sender on_behalf_of call before s t)
            (Refused c sender call s t)
            s
            t
  unfolding expect_supply
  expect_supply_iff reserve amount sender on_behalf_of call expected before s t h =
      by_result_iff c expected _ (expect_reverted c sender call) _ _ s t
        (mined_iff c sender call _ _ s t (λ tx u.
          reading_iff (get_contracts_data c reserve on_behalf_of sender) _ _ u t tt
            (get_contracts_data-Reads c reserve on_behalf_of sender)
            (λ after.
              reading_iff (get_tx_cost_and_timestamp c tx) _ _ u t tt
                (get_tx_cost_and_timestamp-Reads c tx)
                (λ stamp. expect_predicted_iff c after _ _ u t h))))
        (expect_reverted_iff c sender call s t)

  -- The steps of a deposit that passes, from the state `s` to the state `t`.
  abbrev pub DepositPasses :
      String → String → String → String → Option String → String → State → State → Type 0
  DepositPasses symbol amount sender on_behalf_of send_value expected s t =
      Reading (reserve_address c symbol) s (λ reserve.
        Reading (convert_to_currency_decimals c reserve amount) s (λ deposited.
          Reading (get_contracts_data c reserve on_behalf_of sender) s (λ before.
            Reading (value_to_send c reserve send_value) s (λ value.
              let call = Call.deposit reserve deposited on_behalf_of value in
              Verdict c expected
                (SupplyPredicted reserve deposited sender on_behalf_of call before s t)
                (Refused c sender call s t) s t))))

  -- With the comparison switched on, `deposit` passes exactly if the reserve, the amount, the data
  -- before and the value to send can be read, and then: under "success" the deposit is mined, the
  -- data and the stamp after it can be read, both predictions are defined, and reserve and user
  -- agree with them up to three units; under "revert" the deposit is refused; under any other text
  -- the chain is left as it was.
  pub deposit_iff :
      (symbol amount sender on_behalf_of : String) (send_value : Option String) (expected : String)
      (s t : State)
      → skip_integrity_check ≡ false
      → (deposit c symbol amount sender on_behalf_of send_value expected s ≡ ok (tt, t))
        ↔ DepositPasses symbol amount sender on_behalf_of send_value expected s t
  unfolding deposit
  deposit_iff symbol amount sender on_behalf_of send_value expected s t h =
      reading_iff (reserve_address c symbol) _ _ s t tt (reserve_address-Reads c symbol) (λ reserve.
        reading_iff (convert_to_currency_decimals c reserve amount) _ _ s t tt
          (convert_to_currency_decimals-Reads c reserve amount)
          (λ deposited.
            reading_iff (get_contracts_data c reserve on_behalf_of sender) _ _ s t tt
              (get_contracts_data-Reads c reserve on_behalf_of sender)
              (λ before.
                reading_iff (value_to_send c reserve send_value) _ _ s t tt
                  (value_to_send-Reads c reserve send_value)
                  (λ value.
                    expect_supply_iff reserve deposited sender on_behalf_of
                      (Call.deposit reserve deposited on_behalf_of value) expected before s t h))))

  -- The withdrawal is mined, and the contracts agree with what is predicted of it.
  abbrev WithdrawalPredicted : String → ℤ → String → Call → ContractsData → State → State → Type 0
  WithdrawalPredicted reserve amount user call before s t = Mined c user call s (λ tx u.
      Reading (get_contracts_data c reserve user user) u (λ after.
        Reading (get_tx_cost_and_timestamp c tx) u (λ stamp.
          (u ≡ t)
          × Predicted c after
              (calc_expected_reserve_data_after_withdraw reserves_params amount before.reserve_data
                before.user_data stamp.tx_timestamp)
              (λ expected_reserve.
                calc_expected_user_data_after_withdraw amount before.reserve_data expected_reserve
                  before.user_data stamp.tx_timestamp))))

  -- The steps of a withdrawal that passes.
  abbrev pub WithdrawalPasses : String → String → String → String → State → State → Type 0
  WithdrawalPasses symbol amount user expected s t =
      Reading (reserve_address c symbol) s (λ reserve.
        Reading (get_contracts_data c reserve user user) s (λ before.
          Reading (amount_or_all c reserve amount) s (λ withdrawn.
            let call = Call.withdraw reserve withdrawn user in
            Verdict c expected (WithdrawalPredicted reserve withdrawn user call before s t)
              (Refused c user call s t) s t)))

  -- With the comparison switched on, `withdraw` passes exactly if the reserve, the data before and the
  -- amount can be read, and then: under "success" the withdrawal is mined, the data and the stamp
  -- after it can be read, both predictions are defined, and reserve and user agree with them up to
  -- three units; under "revert" the withdrawal is refused; under any other text the chain is left as
  -- it was.
  pub withdraw_iff :
      (symbol amount user expected : String) (s t : State)
      → skip_integrity_check ≡ false
      → (withdraw c symbol amount user expected s ≡ ok (tt, t))
        ↔ WithdrawalPasses symbol amount user expected s t
  unfolding withdraw
  withdraw_iff symbol amount user expected s t h =
      reading_iff (reserve_address c symbol) _ _ s t tt (reserve_address-Reads c symbol) (λ reserve.
        reading_iff (get_contracts_data c reserve user user) _ _ s t tt
          (get_contracts_data-Reads c reserve user user)
          (λ before.
            reading_iff (amount_or_all c reserve amount) _ _ s t tt
              (amount_or_all-Reads c reserve amount)
              (λ withdrawn.
                let call = Call.withdraw reserve withdrawn user in
                by_result_iff c expected _ (expect_reverted c user call) _ _ s t
                  (mined_iff c user call _ _ s t (λ tx u.
                    reading_iff (get_contracts_data c reserve user user) _ _ u t tt
                      (get_contracts_data-Reads c reserve user user)
                      (λ after.
                        reading_iff (get_tx_cost_and_timestamp c tx) _ _ u t tt
                          (get_tx_cost_and_timestamp-Reads c tx)
                          (λ stamp. expect_predicted_iff c after _ _ u t h))))
                  (expect_reverted_iff c user call s t))))

  -- The steps of a supply with a permit that passes.
  abbrev pub PermitPasses :
      String → String → String → String → String → Option String → String → State → State → Type 0
  PermitPasses symbol amount sender private_key on_behalf_of send_value expected s t =
      Reading (reserve_address c symbol) s (λ reserve.
        Reading (convert_to_currency_decimals c reserve amount) s (λ supplied.
          Reading (get_contracts_data c reserve on_behalf_of sender) s (λ before.
            Reading (value_to_send c reserve send_value) s (λ value.
              let signature = sign private_key (permit_params c s reserve symbol sender supplied) in
              let call =
                Call.supply_with_permit reserve supplied on_behalf_of high_deadline signature
                  value in
              Verdict c expected
                (SupplyPredicted reserve supplied sender on_behalf_of call before s t)
                (Refused c sender call s t) s t))))
