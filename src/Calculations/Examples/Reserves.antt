-- ===== src/Calculations/Examples/Reserves.antt =====
-- The theorems on reserves of test-suites/helpers/utils/calculations.ts at a concrete reserve.
use rasa_lending_platform_sm.Prelude.{ℕ, ◌*◌, ◌^◌, ◌≤◌, ◌≡◌, arith}
use rasa_lending_platform_sm.Prelude.Int.{ℤ, pos}
use rasa_lending_platform_sm.Prelude.Result.{ok}
use rasa_lending_platform_sm.Types.{RateMode}
use rasa_lending_platform_sm.WadRayMath.Order.{divided}
use rasa_lending_platform_sm.Calculations.Interest.Closed.{binomial_interest}
use rasa_lending_platform_sm.Calculations.State.Accrual.{next_debt_index}
use rasa_lending_platform_sm.Calculations.Data.{ReserveData}
use rasa_lending_platform_sm.Calculations.Snapshot.{fetched_reserve, fetched_user}
use rasa_lending_platform_sm.Calculations.State.{update_state, start_reserve}
use rasa_lending_platform_sm.Calculations.State.Accrual.{accrued_on, update_state-fetched}
use rasa_lending_platform_sm.Calculations.State.Settlement.{AreRates}
use rasa_lending_platform_sm.Calculations.Liquidity.{
  calc_expected_reserve_data_after_deposit, calc_expected_reserve_data_after_withdraw,
}
use rasa_lending_platform_sm.Calculations.Liquidity.Settled.{
  amounts_with, settled, deposit_settles, withdraw_settles,
}
use rasa_lending_platform_sm.Calculations.Debt.{
  calc_expected_reserve_data_after_borrow, calc_expected_reserve_data_after_repay,
}
use rasa_lending_platform_sm.Calculations.Debt.Settled.{
  amounts_repaid, repaid, repay_variable_settles,
}
use rasa_lending_platform_sm.Calculations.Debt.Borrowing.{
  amounts_borrowed, borrowed, borrow_variable_settles,
}
use rasa_lending_platform_sm.Calculations.Liquidity.{calc_expected_reserve_data_after_mint_unbacked}
use rasa_lending_platform_sm.Calculations.Liquidity.Minted.{
  amounts_minted, minted, mint_unbacked_settles,
}
use rasa_lending_platform_sm.Calculations.Actions.{deposit, expect_reserve}
use rasa_lending_platform_sm.Calculations.Actions.Coherence.{Moves}
use rasa_lending_platform_sm.Calculations.Actions.Conservation.{moved_by, expect_reserve-Moves}
use rasa_lending_platform_sm.Calculations.Examples.Market.{
  listed, dai_listing, dai, dai-IsCurrent, holder,
}

deposit_settles_example :
    (q liquidity stable variable : ℕ) × (calc_expected_reserve_data_after_deposit listed
        (pos (500 * 10 ^ 18))
        (fetched_reserve dai)
        (pos 400)
      ≡ ok (settled dai 400 (5500 * 10 ^ 18) q liquidity stable variable))
    × (7 ≤ q)
    × AreRates listed dai dai_listing
        (amounts_with dai 400 (5500 * 10 ^ 18))
        liquidity
        stable
        variable
deposit_settles_example = deposit_settles listed dai dai_listing 400 dai-IsCurrent (500 * 10 ^ 18)

withdraw_settles_example :
    (q liquidity stable variable : ℕ) × (calc_expected_reserve_data_after_withdraw listed
        (pos (500 * 10 ^ 18))
        (fetched_reserve dai)
        (fetched_user holder)
        (pos 400)
      ≡ ok (settled dai 400 (4500 * 10 ^ 18) q liquidity stable variable))
    × (7 ≤ q)
    × AreRates listed dai dai_listing
        (amounts_with dai 400 (4500 * 10 ^ 18))
        liquidity
        stable
        variable
withdraw_settles_example =
    withdraw_settles listed dai dai_listing 400 dai-IsCurrent holder (500 * 10 ^ 18) (omega arith)
      (λ e. absurd (omega arith))

abbrev deposited : ReserveData
deposited =
    let (q, liquidity, stable, variable, _, _, _) =
      deposit_settles listed dai dai_listing 400 dai-IsCurrent (500 * 10 ^ 18) in
    settled dai 400 (5500 * 10 ^ 18) q liquidity stable variable

expect_deposited :
    expect_reserve listed
      (deposit (pos (500 * 10 ^ 18)))
      (fetched_reserve dai)
      (fetched_user holder)
      (pos 400)
      (pos 500)
    ≡ ok deposited
expect_deposited =
    let (_, _, _, _, e, _, _) =
      deposit_settles listed dai dai_listing 400 dai-IsCurrent (500 * 10 ^ 18) in
    e

expect_reserve-Moves_example :
    (d : ℤ × ℤ) × (moved_by
        (deposit (pos (500 * 10 ^ 18)))
        (fetched_reserve dai)
        (fetched_user holder)
        (pos 400)
      ≡ ok d)
    × Moves (fetched_reserve dai) d.0 d.1 deposited
expect_reserve-Moves_example =
    expect_reserve-Moves listed (deposit (pos (500 * 10 ^ 18))) (fetched_reserve dai)
      (fetched_user holder) (pos 400) (pos 500) expect_deposited

update_state-fetched_example :
    (q : ℕ) × (update_state (fetched_reserve dai) (start_reserve (fetched_reserve dai)) (pos 400)
      ≡ ok (accrued_on (start_reserve (fetched_reserve dai)) dai 400 q))
    × (7 ≤ q)
update_state-fetched_example =
    update_state-fetched (start_reserve (fetched_reserve dai)) dai 400 dai-IsCurrent

twenty_is_owed : divided (20 * 10 ^ 18) (next_debt_index dai 400) ≤ dai.scaled
unfolding binomial_interest
twenty_is_owed = omega arith

repay_variable_settles_example :
    (q liquidity stable variable : ℕ) × (calc_expected_reserve_data_after_repay listed
        (pos (20 * 10 ^ 18))
        RateMode.variable
        (fetched_reserve dai)
        (fetched_user holder)
        (pos 400)
      ≡ ok (repaid dai 400 (20 * 10 ^ 18) q liquidity stable variable))
    × (7 ≤ q)
    × AreRates listed dai dai_listing
        (amounts_repaid dai 400 (20 * 10 ^ 18))
        liquidity
        stable
        variable
repay_variable_settles_example =
    repay_variable_settles listed dai dai_listing 400 dai-IsCurrent holder (20 * 10 ^ 18)
      (omega arith) (λ e. absurd (omega arith)) twenty_is_owed

borrow_variable_settles_example :
    (q liquidity stable variable : ℕ) × (calc_expected_reserve_data_after_borrow listed
        (pos (500 * 10 ^ 18))
        RateMode.variable
        (fetched_reserve dai)
        (pos 400)
        (pos 500)
      ≡ ok (borrowed dai 400 500 (500 * 10 ^ 18) q liquidity stable variable))
    × (7 ≤ q)
    × AreRates listed dai dai_listing
        (amounts_borrowed dai 400 (500 * 10 ^ 18))
        liquidity
        stable
        variable
borrow_variable_settles_example =
    borrow_variable_settles listed dai dai_listing 400 dai-IsCurrent (500 * 10 ^ 18) 500
      (omega arith) (omega arith)

mint_unbacked_settles_example :
    (q liquidity stable variable : ℕ) × (calc_expected_reserve_data_after_mint_unbacked listed
        (pos (60 * 10 ^ 18))
        (fetched_reserve dai)
        (pos 400)
      ≡ ok (minted dai 400 (60 * 10 ^ 18) q liquidity stable variable))
    × (7 ≤ q)
    × AreRates listed dai dai_listing
        (amounts_minted dai 400 (60 * 10 ^ 18))
        liquidity
        stable
        variable
mint_unbacked_settles_example =
    mint_unbacked_settles listed dai dai_listing 400 dai-IsCurrent (60 * 10 ^ 18)
