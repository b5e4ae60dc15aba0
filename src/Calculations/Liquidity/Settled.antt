-- ===== src/Calculations/Liquidity/Settled.antt =====
-- Deposit and withdrawal of test-suites/helpers/utils/calculations.ts, as wholes.
use rasa_lending_platform_sm.Prelude.{ℕ, ◌+◌, ◌-◌, ◌≤◌, ◌≡◌, ◌≢◌, false, arith}
use rasa_lending_platform_sm.Prelude.Int.{pos, eqb_ℤ}
use rasa_lending_platform_sm.Prelude.Result.{ok}
use rasa_lending_platform_sm.Types.{SymbolMap, ReserveParams}
use rasa_lending_platform_sm.Calculations.Data.{ReserveData}
use rasa_lending_platform_sm.Calculations.Snapshot.{
  Reserve, Position, fetched_reserve, fetched_user,
}
use rasa_lending_platform_sm.Calculations.Rates.Total.{Listing}
use rasa_lending_platform_sm.Calculations.State.{start_reserve}
use rasa_lending_platform_sm.Calculations.State.Accrual.{
  IsCurrent, next_stable, next_variable, accrued_on, update_state-fetched,
}
use rasa_lending_platform_sm.Calculations.State.Settlement.{
  Amounts, drafted, with_usage, with_rates, AreRates, update_liquidity-indebted,
  finish_reserve-drafted,
}
use rasa_lending_platform_sm.Calculations.Liquidity.{
  max_uint_amount, calc_expected_reserve_data_after_deposit, amount_to_withdraw,
  calc_expected_reserve_data_after_withdraw,
}

-- The debts after the action, at the average rate before it, with `a` available.
abbrev pub amounts_with : Reserve → ℕ → ℕ → Amounts
amounts_with r t a = record {
  stable = next_stable r t;
  variable = next_variable r t;
  average = r.average_rate;
  available = a;
  unbacked = r.unbacked;
}

-- The reserve after the action: indexes and debts of the time `t`, `a` available, `q` accrued to the
-- treasury, and the usage ratios and rates of these.
abbrev pub settled : Reserve → ℕ → ℕ → ℕ → ℕ → ℕ → ℕ → ReserveData
settled r t a q liquidity stable variable =
    let m = amounts_with r t a in
    let accrued = accrued_on (start_reserve (fetched_reserve r)) r t q in
    with_usage (with_rates (drafted accrued m) liquidity stable variable) m

module _ (reserves_params : SymbolMap ReserveParams) (r : Reserve)
    (l : Listing reserves_params r.symbol) (t : ℕ) (c : IsCurrent r t) where
  -- A deposit into a current, listed reserve does not throw. It adds the amount to the available
  -- liquidity, brings indexes and debts to the time of the transaction, never takes from the treasury,
  -- and sets the usage ratios of the new amounts and the rates that `calcExpectedInterestRates` gives for
  -- them.
  pub deposit_settles :
      (amount : ℕ)
      → (q liquidity stable variable : ℕ) × (calc_expected_reserve_data_after_deposit
            reserves_params
            (pos amount)
            (fetched_reserve r)
            (pos t)
          ≡ ok (settled r t (r.available + amount) q liquidity stable variable))
        × (r.accrued ≤ q)
        × AreRates reserves_params r l
            (amounts_with r t (r.available + amount))
            liquidity
            stable
            variable
  unfolding calc_expected_reserve_data_after_deposit
  deposit_settles amount =
      let m = amounts_with r t (r.available + amount) in
      let (q, accrue, q_ge) = update_state-fetched (start_reserve (fetched_reserve r)) r t c in
      let accrued = accrued_on (start_reserve (fetched_reserve r)) r t q in
      let (liquidity, stable, variable, finish, rates) =
        finish_reserve-drafted reserves_params r l (with_usage accrued m) m in
      (
        q,
        liquidity,
        stable,
        variable,
        rw (accrue, update_liquidity-indebted accrued r m amount 0 (omega arith) (omega arith))
            finish,
        q_ge,
        rates,
      )

  -- A withdrawal from a current, listed reserve, of an explicit amount that is available, does not
  -- throw. It takes the amount out of the available liquidity, brings indexes and debts to the time of
  -- the transaction, never takes from the treasury, and sets the usage ratios of the new amounts and the
  -- rates that `calcExpectedInterestRates` gives for them.
  pub withdraw_settles :
      (p : Position) (amount : ℕ)
      → amount ≤ r.available
      → amount ≢ max_uint_amount
      → (q liquidity stable variable : ℕ) × (calc_expected_reserve_data_after_withdraw
            reserves_params
            (pos amount)
            (fetched_reserve r)
            (fetched_user p)
            (pos t)
          ≡ ok (settled r t (r.available - amount) q liquidity stable variable))
        × (r.accrued ≤ q)
        × AreRates reserves_params r l
            (amounts_with r t (r.available - amount))
            liquidity
            stable
            variable
  unfolding calc_expected_reserve_data_after_withdraw amount_to_withdraw
  withdraw_settles p amount le ne =
      let m = amounts_with r t (r.available - amount) in
      let explicit : eqb_ℤ (pos amount) (pos max_uint_amount) ≡ false = ground arith in
      let (q, accrue, q_ge) = update_state-fetched (start_reserve (fetched_reserve r)) r t c in
      let accrued = accrued_on (start_reserve (fetched_reserve r)) r t q in
      let (liquidity, stable, variable, finish, rates) =
        finish_reserve-drafted reserves_params r l (with_usage accrued m) m in
      (
        q,
        liquidity,
        stable,
        variable,
        rw
            (
              explicit,
              accrue,
              update_liquidity-indebted accrued r m 0 amount (omega arith) (omega arith),
            )
            finish,
        q_ge,
        rates,
      )
