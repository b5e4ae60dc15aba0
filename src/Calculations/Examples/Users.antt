-- ===== src/Calculations/Examples/Users.antt =====
-- The theorems on users of test-suites/helpers/utils/calculations.ts at a concrete position.
use rasa_lending_platform_sm.Prelude.{ℕ, ◌≡◌, refl, some, arith}
use rasa_lending_platform_sm.Prelude.Int.{pos}
use rasa_lending_platform_sm.Prelude.Result.{ok}
use rasa_lending_platform_sm.Types.{RateMode}
use rasa_lending_platform_sm.Calculations.Data.{UserReserveData}
use rasa_lending_platform_sm.Calculations.Snapshot.{fetched_reserve, fetched_user}
use rasa_lending_platform_sm.Calculations.State.{calc_expected_rs_token_balance}
use rasa_lending_platform_sm.Calculations.Liquidity.{max_uint_amount}
use rasa_lending_platform_sm.Calculations.User.{calc_expected_user_data_after_withdraw}
use rasa_lending_platform_sm.Calculations.User.Balances.{income, debt_factor}
use rasa_lending_platform_sm.Calculations.User.Withdrawal.{IsEmptied, withdraw_empties}
use rasa_lending_platform_sm.Calculations.UserDebt.{calc_expected_user_data_after_repay}
use rasa_lending_platform_sm.Calculations.UserDebt.Repayment.{IsCleared, repay_clears}
use rasa_lending_platform_sm.Calculations.Examples.Market.{dai, holder}

withdraw_empties_example :
    (balance : ℕ) × (e : UserReserveData) × (calc_expected_rs_token_balance
        (fetched_reserve dai)
        (fetched_user holder)
        (pos 400)
      ≡ ok (pos balance))
    × (calc_expected_user_data_after_withdraw
          (pos max_uint_amount)
          (fetched_reserve dai)
          (record (fetched_reserve dai) { liquidity_index = some (pos (income dai 400)) })
          (fetched_user holder)
          (pos 400)
        ≡ ok e)
    × IsEmptied holder balance e
withdraw_empties_example =
    withdraw_empties dai holder
      (record (fetched_reserve dai) { liquidity_index = some (pos (income dai 400)) }) 400
      (omega arith) (omega arith) (omega arith) refl

repay_clears_example :
    (e : UserReserveData) × (calc_expected_user_data_after_repay
        (pos max_uint_amount)
        RateMode.variable
        (fetched_reserve dai)
        (record (fetched_reserve dai) { variable_borrow_index = some (pos (debt_factor dai 500)) })
        (fetched_user holder)
        "0xholder"
        "0xholder"
        (pos 400)
        (pos 500)
      ≡ ok e)
    × IsCleared RateMode.variable e
repay_clears_example =
    repay_clears RateMode.variable dai holder
      (record (fetched_reserve dai) { variable_borrow_index = some (pos (debt_factor dai 500)) })
      "0xholder" "0xholder" 400 500 (omega arith) (omega arith) (omega arith) (omega arith) refl
