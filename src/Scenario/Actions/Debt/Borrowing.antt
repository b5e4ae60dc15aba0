-- ===== src/Scenario/Actions/Debt/Borrowing.antt =====
-- When `borrow` of test-suites/helpers/actions.ts passes.
use text.Mathlib.Text.{◌==◌ as str_eq}
use rasa_lending_platform_sm.Prelude.{
  ◌≡◌, refl, ◌↔◌, Bool, true, false, String, Option, if◌then◌else◌,
}
use rasa_lending_platform_sm.Prelude.Int.{ℤ, ◌-ℤ◌, eqb_ℤ}
use rasa_lending_platform_sm.Prelude.Result
use rasa_lending_platform_sm.Prelude.Result.{Result, ok, err, reverted, assertion_failed}
use rasa_lending_platform_sm.Calculations.Data.{ReserveData, UserReserveData}
use rasa_lending_platform_sm.Calculations.Debt.{calc_expected_reserve_data_after_borrow}
use rasa_lending_platform_sm.Calculations.UserDebt.{calc_expected_user_data_after_borrow}
use rasa_lending_platform_sm.Scenario.Chain.{
  Chain, Call, Receipt, Promise, fulfilled, rejected, Run, pure, lift, ◌>>=◌, ◌>>◌, continue-eq-ok,
}
use rasa_lending_platform_sm.Scenario.Chain.Reading.{Reading, reading_iff, Stepping, stepping_iff}
use rasa_lending_platform_sm.Scenario.Actions.{
  ContractsData, mode_of, reserve_address, convert_to_currency_decimals, get_contracts_data,
  get_tx_cost_and_timestamp, travel, expect_predicted,
}
use rasa_lending_platform_sm.Scenario.Actions.Passing.{
  Predicted, Verdict, expect_predicted_iff, by_result_iff,
}
use rasa_lending_platform_sm.Scenario.Actions.Reads.{
  reserve_address-Reads, convert_to_currency_decimals-Reads, get_contracts_data-Reads,
  get_tx_cost_and_timestamp-Reads, debt_token-Reads,
}
use rasa_lending_platform_sm.Scenario.Actions.Debt.{
  debt_token, submit, await_tx, await_reverted, expect_allowance, borrow,
}

module _ (c : Chain) where
  open c use {State, borrow_allowance, reserves_params, skip_integrity_check}

  -- The promise is fulfilled, and `P` holds of the receipt.
  abbrev pub Fulfilled : Promise → (Receipt → Type 0) → Type 0
  Fulfilled promise P = (tx : Receipt) × (promise ≡ fulfilled tx) × P tx

  abbrev pub Rejected : Promise → Type 0
  Rejected promise = (reason : String) × (promise ≡ rejected reason)

  await_tx_iff :
      (promise : Promise) (f : Receipt → Run State (Unit {0})) (P : Receipt → Type 0) (s t : State)
      → ((tx : Receipt) → (f tx s ≡ ok (tt, t)) ↔ P tx)
      → ((await_tx c promise >>= f) s ≡ ok (tt, t)) ↔ Fulfilled promise P
  await_tx_iff (fulfilled receipt) f P s t h = (
    λ e. (receipt, refl, (h receipt).0 e),
    λ (tx, e, p).
        let same : receipt ≡ tx = cc in
        let passed : f tx s ≡ ok (tt, t) = (h tx).1 p in rw (same) passed,
  )
  await_tx_iff (rejected reason) f P s t h = (λ e. cc, λ (tx, e, p). cc)

  await_reverted_iff :
      (promise : Promise) (s t : State)
      → (await_reverted c promise s ≡ ok (tt, t)) ↔ (Rejected promise × (s ≡ t))
  await_reverted_iff (fulfilled receipt) s t = (λ e. cc, λ ((reason, e), same). cc)
  await_reverted_iff (rejected reason) s t = (λ e. ((reason, refl), cc), λ (r, same). cc)

  -- An allowance that is used goes down by the amount.
  abbrev pub AllowanceUsed : String → String → String → ℤ → ℤ → State → Type 0
  AllowanceUsed token on_behalf_of user before amount s =
      if str_eq user on_behalf_of
      then Unit
      else (eqb_ℤ (borrow_allowance s token on_behalf_of user) (before -ℤ amount) ≡ true)

  expect_allowance_iff :
      (token on_behalf_of user : String) (before amount : ℤ) (s t : State)
      → (expect_allowance c token on_behalf_of user before amount s ≡ ok (tt, t))
        ↔ (AllowanceUsed token on_behalf_of user before amount s × (s ≡ t))
  unfolding expect_allowance
  expect_allowance_iff token on_behalf_of user before amount s t =
      by_user (str_eq user on_behalf_of)
        (λ u. eqb_ℤ (borrow_allowance u token on_behalf_of user) (before -ℤ amount))
    where
      guarded :
          (q : Bool)
          → (lift (Result.guard q assertion_failed) s ≡ ok (tt, t)) ↔ ((q ≡ true) × (s ≡ t))
      guarded true = (λ e. (refl, cc), λ (_, same). cc)
      guarded false = (λ e. cc, λ (h, same). cc)

      by_user :
          (p : Bool) (q : State → Bool)
          → (((if p then pure tt else λ u. lift (Result.guard (q u) assertion_failed) u) s)
              ≡ ok (tt, t))
            ↔ ((if p then Unit {0} else (q s ≡ true)) × (s ≡ t))
      by_user true q = (λ e. (tt, cc), λ (_, same). cc)
      by_user false q = guarded (q s)

  -- The comparisons with the predictions, and what follows them.
  expect_predicted_then_iff :
      (after : ContractsData) (pr : Result ReserveData) (pu : ReserveData → Result UserReserveData)
      (rest : Run State (Unit {0})) (P : Type 0) (s t : State)
      → skip_integrity_check ≡ false
      → (rest s ≡ ok (tt, t)) ↔ P
      → ((expect_predicted c after pr pu >> rest) s ≡ ok (tt, t)) ↔ (Predicted c after pr pu × P)
  expect_predicted_then_iff after pr pu rest P s t h f = (
    λ e.
        let (_, u, first, last) = continue-eq-ok (λ _. rest) (expect_predicted c after pr pu s) e in
        let (same, agreed) = (expect_predicted_iff c after pr pu s u h).0 first in
        let last' : rest s ≡ ok (tt, t) = cc in (agreed, f.0 last'),
    λ (agreed, p).
        let first : expect_predicted c after pr pu s ≡ ok (tt, s) =
          (expect_predicted_iff c after pr pu s s h).1 (refl, agreed) in
        let last : rest s ≡ ok (tt, t) = f.1 p in rw (first) last,
  )

  -- The borrow is mined, the chain travels in time, the contracts agree with what is predicted, and the
  -- allowance is used.
  abbrev BorrowPredicted :
      String
      → String
      → String
      → ℤ
      → String
      → Option String
      → String
      → ℤ
      → ContractsData
      → Promise
      → State
      → State
      → Type 0
  BorrowPredicted reserve user on_behalf_of amount mode time_travel token allowance before promise u
        t =
      Fulfilled promise (λ tx. Reading (get_tx_cost_and_timestamp c tx) u (λ stamp.
        Stepping (travel c time_travel) u (λ _ v.
          Reading (get_contracts_data c reserve on_behalf_of user) v (λ after.
            Predicted c after
              (calc_expected_reserve_data_after_borrow reserves_params amount (mode_of mode)
                before.reserve_data stamp.tx_timestamp after.timestamp)
              (λ expected_reserve.
                calc_expected_user_data_after_borrow amount (mode_of mode) before.reserve_data
                  expected_reserve before.user_data stamp.tx_timestamp after.timestamp)
            × (AllowanceUsed token on_behalf_of user allowance amount v × (v ≡ t))))))

  -- The steps of a borrow that passes, from the state `s` to the state `t`.
  abbrev pub BorrowPasses :
      String → String → String → String → String → Option String → String → State → State → Type 0
  BorrowPasses symbol amount mode user on_behalf_of time_travel expected s t =
      Reading (reserve_address c symbol) s (λ reserve.
        Reading (get_contracts_data c reserve on_behalf_of user) s (λ before.
          Reading (debt_token c reserve mode) s (λ token.
            Reading (convert_to_currency_decimals c reserve amount) s (λ borrowed.
              let allowance = borrow_allowance s token on_behalf_of user in
              Stepping (submit c user (Call.borrow reserve borrowed mode on_behalf_of)) s
                (λ promise u.
                  Verdict c expected
                    (BorrowPredicted reserve user on_behalf_of borrowed mode time_travel token
                      allowance before promise u t)
                    (Rejected promise × (u ≡ t)) u t)))))

  -- With the comparison switched on, `borrow` passes exactly if the reserve, the data before, the debt
  -- token and the amount can be read, the borrow is sent, whatever is expected, and then: under
  -- "success" it was mined, the stamp can be read, the chain travels in time, the data after that can
  -- be read, both predictions are defined, reserve and user agree with them up to three units, and
  -- the allowance, if the user borrows for another, went down by the amount; under "revert" it was
  -- refused; under any other text nothing follows.
  pub borrow_iff :
      (symbol amount mode user on_behalf_of : String) (time_travel : Option String)
      (expected : String) (s t : State)
      → skip_integrity_check ≡ false
      → (borrow c symbol amount mode user on_behalf_of time_travel expected s ≡ ok (tt, t))
        ↔ BorrowPasses symbol amount mode user on_behalf_of time_travel expected s t
  unfolding borrow
  borrow_iff symbol amount mode user on_behalf_of time_travel expected s t h =
      reading_iff (reserve_address c symbol) _ _ s t tt (reserve_address-Reads c symbol) (λ reserve.
        reading_iff (get_contracts_data c reserve on_behalf_of user) _ _ s t tt
          (get_contracts_data-Reads c reserve on_behalf_of user)
          (λ before.
            reading_iff (debt_token c reserve mode) _ _ s t tt (debt_token-Reads c reserve mode)
              (λ token.
                reading_iff (convert_to_currency_decimals c reserve amount) _ _ s t tt
                  (convert_to_currency_decimals-Reads c reserve amount)
                  (λ borrowed.
                    stepping_iff (submit c user (Call.borrow reserve borrowed mode on_behalf_of)) _
                      _ s t tt
                      (λ promise u.
                        by_result_iff c expected _ (await_reverted c promise) _ _ u t
                          (await_tx_iff promise _ _ u t (λ tx.
                            reading_iff (get_tx_cost_and_timestamp c tx) _ _ u t tt
                              (get_tx_cost_and_timestamp-Reads c tx)
                              (λ stamp. stepping_iff (travel c time_travel) _ _ u t tt (λ _ v.
                                reading_iff (get_contracts_data c reserve on_behalf_of user) _ _ v t
                                  tt (get_contracts_data-Reads c reserve on_behalf_of user)
                                  (λ after. expect_predicted_then_iff after _ _ _ _ v t h (
                                    expect_allowance_iff token on_behalf_of user _ borrowed v
                                      t))))))
                          (await_reverted_iff promise u t))))))
