-- ===== src/Scenario/Actions/Settings/Verdicts.antt =====
-- When `setUseAsCollateral`, `swapBorrowRateMode` and `rebalanceStableBorrowRate` of
-- test-suites/helpers/actions.ts pass.
use rasa_lending_platform_sm.Prelude.{◌≡◌, ◌↔◌, false, String}
use rasa_lending_platform_sm.Prelude.Result.{Result, ok}
use rasa_lending_platform_sm.Calculations.Data.{ReserveData, UserReserveData}
use rasa_lending_platform_sm.Calculations.UserDebt.{
  calc_expected_user_data_after_swap_rate_mode, calc_expected_user_data_after_stable_rate_rebalance,
}
use rasa_lending_platform_sm.Calculations.Swap.{
  calc_expected_reserve_data_after_swap_rate_mode,
  calc_expected_reserve_data_after_stable_rate_rebalance,
}
use rasa_lending_platform_sm.Scenario.Chain.{Chain, Call, ◌>>=◌}
use rasa_lending_platform_sm.Scenario.Chain.Reading.{Reading, reading_iff}
use rasa_lending_platform_sm.Scenario.Actions.{
  CostAndTimestamp, mode_of, reserve_address, get_contracts_data, get_tx_cost_and_timestamp,
  wait_for_tx, expect_reverted, expect_predicted, by_result,
}
use rasa_lending_platform_sm.Scenario.Actions.Passing.{
  Predicted, Mined, Refused, Verdict, expect_predicted_iff, mined_iff, expect_reverted_iff,
  by_result_iff,
}
use rasa_lending_platform_sm.Scenario.Actions.Reads.{
  reserve_address-Reads, get_contracts_data-Reads, get_tx_cost_and_timestamp-Reads,
}
use rasa_lending_platform_sm.Scenario.Actions.Settings.{
  swap_borrow_rate_mode, rebalance_stable_borrow_rate,
}

module _ (c : Chain) where
  open c use {State, reserves_params, skip_integrity_check}

  -- The change is mined, and the contracts agree with what is predicted of it from the data before.
  abbrev ChangePredicted :
      String
      → String
      → String
      → Call
      → (CostAndTimestamp → Result ReserveData)
      → (CostAndTimestamp → ReserveData → Result UserReserveData)
      → State
      → State
      → Type 0
  ChangePredicted reserve user sender call predicted_reserve predicted_user s t =
      Mined c sender call s (λ tx u. Reading (get_tx_cost_and_timestamp c tx) u (λ stamp.
        Reading (get_contracts_data c reserve user user) u
          (λ after. (u ≡ t) × Predicted c after (predicted_reserve stamp) (predicted_user stamp))))

  change_iff :
      (reserve user sender : String) (call : Call) (expected : String)
      (predicted_reserve : CostAndTimestamp → Result ReserveData)
      (predicted_user : CostAndTimestamp → ReserveData → Result UserReserveData) (s t : State)
      → skip_integrity_check ≡ false
      → (by_result c expected
            (do
              tx ← wait_for_tx c sender call
              stamp ← get_tx_cost_and_timestamp c tx
              after ← get_contracts_data c reserve user user
              expect_predicted c after (predicted_reserve stamp) (predicted_user stamp))
            (expect_reverted c sender call)
            s
          ≡ ok (tt, t))
        ↔ Verdict c expected
            (ChangePredicted reserve user sender call predicted_reserve predicted_user s t)
            (Refused c sender call s t)
            s
            t
  change_iff reserve user sender call expected predicted_reserve predicted_user s t h =
      by_result_iff c expected _ (expect_reverted c sender call) _ _ s t
        (mined_iff c sender call _ _ s t (λ tx u.
          reading_iff (get_tx_cost_and_timestamp c tx) _ _ u t tt
            (get_tx_cost_and_timestamp-Reads c tx)
            (λ stamp.
              reading_iff (get_contracts_data c reserve user user) _ _ u t tt
                (get_contracts_data-Reads c reserve user user)
                (λ after. expect_predicted_iff c after _ _ u t h))))
        (expect_reverted_iff c sender call s t)

  -- The steps of a swap of the rate mode that passes.
  abbrev pub SwapPasses : String → String → String → String → State → State → Type 0
  SwapPasses symbol user mode expected s t = Reading (reserve_address c symbol) s (λ reserve.
      Reading (get_contracts_data c reserve user user) s (λ before.
        let call = Call.swap_borrow_rate_mode reserve mode in
        Verdict c expected
          (ChangePredicted reserve user user call
            (λ stamp.
              calc_expected_reserve_data_after_swap_rate_mode reserves_params before.reserve_data
                before.user_data (mode_of mode) stamp.tx_timestamp)
            (λ stamp expected_reserve.
              calc_expected_user_data_after_swap_rate_mode before.reserve_data expected_reserve
                before.user_data (mode_of mode) stamp.tx_timestamp)
            s t)
          (Refused c user call s t) s t))

  -- With the comparison switched on, `swapBorrowRateMode` passes exactly if the reserve and the data
  -- before can be read, and then: under "success" the swap is mined, the stamp and the data after it
  -- can be read, both predictions are defined, and reserve and user agree with them up to three
  -- units; under "revert" the swap is refused; under any other text the chain is left as it was.
  pub swap_borrow_rate_mode_iff :
      (symbol user mode expected : String) (s t : State)
      → skip_integrity_check ≡ false
      → (swap_borrow_rate_mode c symbol user mode expected s ≡ ok (tt, t))
        ↔ SwapPasses symbol user mode expected s t
  unfolding swap_borrow_rate_mode
  swap_borrow_rate_mode_iff symbol user mode expected s t h =
      reading_iff (reserve_address c symbol) _ _ s t tt (reserve_address-Reads c symbol) (λ reserve.
        reading_iff (get_contracts_data c reserve user user) _ _ s t tt
          (get_contracts_data-Reads c reserve user user)
          (λ before.
            change_iff reserve user user (Call.swap_borrow_rate_mode reserve mode) expected _ _ s t
              h))

  -- The steps of a rebalance of the stable rate that passes.
  abbrev pub RebalancePasses : String → String → String → String → State → State → Type 0
  RebalancePasses symbol user target expected s t = Reading (reserve_address c symbol) s (λ reserve.
      Reading (get_contracts_data c reserve target target) s (λ before.
        let call = Call.rebalance_stable_borrow_rate reserve target in
        Verdict c expected
          (ChangePredicted reserve target user call
            (λ stamp.
              calc_expected_reserve_data_after_stable_rate_rebalance reserves_params
                before.reserve_data before.user_data stamp.tx_timestamp)
            (λ stamp expected_reserve.
              calc_expected_user_data_after_stable_rate_rebalance before.reserve_data
                expected_reserve before.user_data stamp.tx_timestamp)
            s t)
          (Refused c user call s t) s t))

  -- When `rebalanceStableBorrowRate` passes: as `swapBorrowRateMode`, on the target's data.
  pub rebalance_stable_borrow_rate_iff :
      (symbol user target expected : String) (s t : State)
      → skip_integrity_check ≡ false
      → (rebalance_stable_borrow_rate c symbol user target expected s ≡ ok (tt, t))
        ↔ RebalancePasses symbol user target expected s t
  unfolding rebalance_stable_borrow_rate
  rebalance_stable_borrow_rate_iff symbol user target expected s t h =
      reading_iff (reserve_address c symbol) _ _ s t tt (reserve_address-Reads c symbol) (λ reserve.
        reading_iff (get_contracts_data c reserve target target) _ _ s t tt
          (get_contracts_data-Reads c reserve target target)
          (λ before.
            change_iff reserve target user (Call.rebalance_stable_borrow_rate reserve target)
              expected _ _ s t h))
