-- ===== src/Calculations/Debt/Settled.antt =====
-- The repayment of variable debt in test-suites/helpers/utils/calculations.ts, as a whole.
use rasa_lending_platform_sm.Prelude.{ℕ, ◌+◌, ◌-◌, ◌≤◌, ◌≡◌, ◌≢◌, false, some, arith}
use rasa_lending_platform_sm.Prelude.Int.{pos, eqb_ℤ, -ℤ-pos}
use rasa_lending_platform_sm.Prelude.Result.{ok}
use rasa_lending_platform_sm.Types.{SymbolMap, ReserveParams, RateMode}
use rasa_lending_platform_sm.WadRayMath.Rounding.{ray_mul-pos, ray_div-pos}
use rasa_lending_platform_sm.WadRayMath.Order.{multiplied, divided}
use rasa_lending_platform_sm.Calculations.Data.{ReserveData}
use rasa_lending_platform_sm.Calculations.Snapshot.{
  Reserve, Position, fetched_reserve, fetched_user,
}
use rasa_lending_platform_sm.Calculations.Rates.Total.{Listing}
use rasa_lending_platform_sm.Calculations.State.{start_reserve}
use rasa_lending_platform_sm.Calculations.State.Accrual.{
  IsCurrent, next_debt_index, next_stable, accrued_on, indexes_grow, update_state-fetched,
}
use rasa_lending_platform_sm.Calculations.State.Settlement.{
  Amounts, drafted, with_usage, with_rates, AreRates, set_usage_ratios-liquid, update_total-liquid,
  set_rates-drafted, update_liquidity-indebted,
}
use rasa_lending_platform_sm.Calculations.Liquidity.{max_uint_amount}
use rasa_lending_platform_sm.Calculations.Liquidity.Settled.{amounts_with}
use rasa_lending_platform_sm.Calculations.Debt.{
  amount_to_repay, repay_variable, calc_expected_reserve_data_after_repay,
}
use rasa_lending_platform_sm.Calculations.User.Balances.{
  stable_balance-fetched, variable_balance-fetched,
}

-- The scaled debt that is left when `amount` is repaid at the debt index of the time `t`.
abbrev pub scaled_left : Reserve → ℕ → ℕ → ℕ
scaled_left r t amount = r.scaled - divided amount (next_debt_index r t)

-- The amounts after the repayment.
abbrev pub amounts_repaid : Reserve → ℕ → ℕ → Amounts
amounts_repaid r t amount = record {
  stable = next_stable r t;
  variable = multiplied (scaled_left r t amount) (next_debt_index r t);
  average = r.average_rate;
  available = r.available + amount;
  unbacked = r.unbacked;
}

-- The draft of the reserve once the debt is reduced.
abbrev pub reduced : Reserve → ℕ → ℕ → ℕ → ReserveData
reduced r t amount q = record (accrued_on (start_reserve (fetched_reserve r)) r t q) {
  scaled_variable_debt = some (pos (scaled_left r t amount));
}

-- The reserve after the repayment.
abbrev pub repaid : Reserve → ℕ → ℕ → ℕ → ℕ → ℕ → ℕ → ReserveData
repaid r t amount q liquidity stable variable =
    let m = amounts_repaid r t amount in
    with_usage
      (record (with_rates (drafted (reduced r t amount q) m) liquidity stable variable) {
        last_update_timestamp = some (pos t);
      })
      m

module _ (reserves_params : SymbolMap ReserveParams) (r : Reserve)
    (l : Listing reserves_params r.symbol) (t : ℕ) (c : IsCurrent r t) where
  -- A repayment of variable debt in a current, listed reserve, of an explicit amount that is worth at
  -- most the scaled debt of the reserve, by a user whose stable rate was set by then, does not throw. It
  -- adds the amount to the available liquidity,
  -- takes its worth at the new debt index from the scaled debt, sets the total variable debt to what is
  -- left at that index and the update time to the transaction's, never takes from the treasury, and sets
  -- the usage ratios of the new amounts and the rates that `calcExpectedInterestRates` gives for them.
  pub repay_variable_settles :
      (p : Position) (amount : ℕ)
      → p.rate_updated ≤ t
      → amount ≢ max_uint_amount
      → divided amount (next_debt_index r t) ≤ r.scaled
      → (q liquidity stable variable : ℕ) × (calc_expected_reserve_data_after_repay reserves_params
            (pos amount)
            RateMode.variable
            (fetched_reserve r)
            (fetched_user p)
            (pos t)
          ≡ ok (repaid r t amount q liquidity stable variable))
        × (r.accrued ≤ q)
        × AreRates reserves_params r l (amounts_repaid r t amount) liquidity stable variable
  unfolding calc_expected_reserve_data_after_repay amount_to_repay repay_variable
  repay_variable_settles p amount k ne le =
      let m0 = amounts_with r t (r.available + amount) in
      let m = amounts_repaid r t amount in
      let explicit : eqb_ℤ (pos amount) (pos max_uint_amount) ≡ false = ground arith in
      let (_, index_le, _) = indexes_grow r t c in
      let (q, accrue, q_ge) = update_state-fetched (start_reserve (fetched_reserve r)) r t c in
      let accrued = accrued_on (start_reserve (fetched_reserve r)) r t q in
      let draft = with_usage (reduced r t amount q) m0 in
      let with_ratios = with_usage (reduced r t amount q) m in
      let (liquidity, stable, variable, priced, rates) =
        set_rates-drafted reserves_params r l with_ratios m m.stable m.variable in
      (
        q,
        liquidity,
        stable,
        variable,
        rw
            (
              stable_balance-fetched p t k,
              variable_balance-fetched r p t c.updated_le,
              explicit,
              accrue,
              update_liquidity-indebted accrued r m0 amount 0 (omega arith) (omega arith),
              ray_div-pos amount (next_debt_index r t) (omega (arith, c.debt_index_ge)),
              -ℤ-pos r.scaled (divided amount (next_debt_index r t)) le,
              ray_mul-pos (scaled_left r t amount) (next_debt_index r t),
            )
            (rw
              (
                set_usage_ratios-liquid
                    (record draft { average_stable_borrow_rate = some (pos r.average_rate) }) m,
                priced,
              )
              (update_total-liquid
                (record (with_rates (drafted with_ratios m) liquidity stable variable) {
                  last_update_timestamp = some (pos t);
                })
                m)),
        q_ge,
        rates,
      )
