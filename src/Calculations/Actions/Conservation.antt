-- ===== src/Calculations/Actions/Conservation.antt =====
-- Every action of test-suites/helpers/utils/calculations.ts accounts for the liquidity that it moves.
use rasa_lending_platform_sm.Prelude.{◌≡◌, refl, if◌then◌else◌}
use rasa_lending_platform_sm.Prelude.Int.{ℤ, pos, ◌+ℤ◌, ltb_ℤ}
use rasa_lending_platform_sm.Prelude.Result.{Result, ok, ◌>>=◌, defined}
use rasa_lending_platform_sm.Types.{SymbolMap, ReserveParams}
use rasa_lending_platform_sm.Calculations.Data.{ReserveData, UserReserveData}
use rasa_lending_platform_sm.Calculations.State.{calc_expected_variable_debt_token_balance}
use rasa_lending_platform_sm.Calculations.Liquidity.{amount_to_withdraw}
use rasa_lending_platform_sm.Calculations.Debt.{stable_balance_of, amount_to_repay}
use rasa_lending_platform_sm.Calculations.Actions.{
  Action, deposit, withdraw, mint_unbacked, back_unbacked, borrow, repay, swap_rate_mode,
  rebalance_stable_rate, expect_reserve,
}
use rasa_lending_platform_sm.Calculations.Actions.Coherence.{
  Moves, deposit-Moves, withdraw-Moves, mint_unbacked-Moves, back_unbacked-Moves,
}
use rasa_lending_platform_sm.Calculations.Actions.Debt.{repay-Moves, swap-Moves, rebalance-Moves}
use rasa_lending_platform_sm.Calculations.Actions.Borrow.{borrow-Moves}

-- What an action adds to the available liquidity, and what it takes.
abbrev pub moved_by : Action → ReserveData → UserReserveData → ℤ → Result (ℤ × ℤ)
moved_by (deposit amount) before user tx = ok (amount, pos 0)
moved_by (withdraw asked) before user tx = do
  amount ← amount_to_withdraw asked before user tx
  ok (pos 0, amount)
moved_by (mint_unbacked amount) before user tx = ok (pos 0, pos 0)
moved_by (back_unbacked supply amount fee share) before user tx = do
  unbacked ← defined before.unbacked
  ok ((if ltb_ℤ amount unbacked then amount else unbacked) +ℤ fee, pos 0)
moved_by (borrow amount mode) before user tx = ok (pos 0, amount)
moved_by (repay asked mode) before user tx = do
  stable ← stable_balance_of user tx
  variable ← calc_expected_variable_debt_token_balance before user tx
  ok (amount_to_repay asked mode stable variable, pos 0)
moved_by (swap_rate_mode mode) before user tx = ok (pos 0, pos 0)
moved_by rebalance_stable_rate before user tx = ok (pos 0, pos 0)

-- Whenever an action is predicted without a throw, the expected reserve is coherent: its total
-- liquidity is the available liquidity plus the unbacked amount, and its usage ratios are those of its
-- own debts and liquidity. Its available liquidity is that from before the action with what the action
-- adds and without what it takes; minting unbacked tokens, a swap of the rate mode and a rebalancing
-- move none.
pub expect_reserve-Moves :
    (ps : SymbolMap ReserveParams) (action : Action) (before : ReserveData) (user : UserReserveData)
    (tx now : ℤ) {e : ReserveData}
    → expect_reserve ps action before user tx now ≡ ok e
    → (d : ℤ × ℤ) × (moved_by action before user tx ≡ ok d) × Moves before d.0 d.1 e
expect_reserve-Moves ps (deposit amount) before user tx now h =
    ((amount, pos 0), refl, deposit-Moves ps before tx amount h)
expect_reserve-Moves ps (withdraw asked) before user tx now h =
    let (amount, asks, moves) = withdraw-Moves ps before tx asked user h in
    ((pos 0, amount), rw asks, moves)
expect_reserve-Moves ps (mint_unbacked amount) before user tx now h =
    ((pos 0, pos 0), refl, mint_unbacked-Moves ps before tx amount h)
expect_reserve-Moves ps (back_unbacked supply amount fee share) before user tx now h =
    let (unbacked, e, moves) = back_unbacked-Moves ps before tx supply amount fee share h in
    (((if ltb_ℤ amount unbacked then amount else unbacked) +ℤ fee, pos 0), rw e, moves)
expect_reserve-Moves ps (borrow amount mode) before user tx now h =
    ((pos 0, amount), refl, borrow-Moves ps amount mode before tx now h)
expect_reserve-Moves ps (repay asked mode) before user tx now h =
    let (stable, variable, is_stable_debt, is_variable_debt, moves) =
      repay-Moves ps before tx asked mode user h in
    (
      (amount_to_repay asked mode stable variable, pos 0),
      rw (is_stable_debt, is_variable_debt),
      moves,
    )
expect_reserve-Moves ps (swap_rate_mode mode) before user tx now h =
    ((pos 0, pos 0), refl, swap-Moves ps before tx mode user h)
expect_reserve-Moves ps rebalance_stable_rate before user tx now h =
    ((pos 0, pos 0), refl, rebalance-Moves ps before tx user h)
