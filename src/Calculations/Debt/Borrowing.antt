-- ===== src/Calculations/Debt/Borrowing.antt =====
-- Borrowing at the variable rate in test-suites/helpers/utils/calculations.ts, as a whole.
use rasa_lending_platform_sm.Prelude.{ℕ, ◌+◌, ◌-◌, ◌≤◌, ◌≡◌, some, arith, ◌==◌, ◌||◌, if◌then◌else◌}
use rasa_lending_platform_sm.Prelude.Int.{pos, +ℤ-pos}
use rasa_lending_platform_sm.Prelude.Result.{ok}
use rasa_lending_platform_sm.Types.{SymbolMap, ReserveParams, RateMode}
use rasa_lending_platform_sm.WadRayMath.Rounding.{ray_mul-pos, ray_div-pos}
use rasa_lending_platform_sm.WadRayMath.Order.{multiplied, divided}
use rasa_lending_platform_sm.Calculations.Data.{ReserveData}
use rasa_lending_platform_sm.Calculations.Snapshot.{Reserve, fetched_reserve}
use rasa_lending_platform_sm.Calculations.Interest.{
  calc_expected_stable_debt_token_balance, calc_expected_reserve_normalized_debt,
}
use rasa_lending_platform_sm.Calculations.Interest.Closed.{
  binomial_interest, calc_compounded_interest-pos,
}
use rasa_lending_platform_sm.Calculations.Rates.Total.{Listing}
use rasa_lending_platform_sm.Calculations.State.{start_reserve}
use rasa_lending_platform_sm.Calculations.State.Accrual.{
  IsCurrent, next_debt_index, next_stable, accrued_on, indexes_grow, update_state-fetched,
  total_stable-fetched,
}
use rasa_lending_platform_sm.Calculations.State.Settlement.{
  Amounts, drafted, with_usage, with_rates, AreRates, set_usage_ratios-liquid, set_rates-drafted,
  update_liquidity-indebted,
}
use rasa_lending_platform_sm.Calculations.Liquidity.Settled.{amounts_with}
use rasa_lending_platform_sm.Calculations.Debt.{
  total_stable_of, grown_variable_debt, borrow_variable, calc_expected_reserve_data_after_borrow,
}

-- The stable debt right after the transaction, as the code takes it from the token's balance.
abbrev pub stable_at : Reserve → ℕ → ℕ
stable_at r t =
    if r.average_rate == 0 || t == r.stable_updated || r.stable_updated == 0
    then r.principal
    else multiplied r.principal (binomial_interest r.average_rate (t - r.stable_updated))

stable_at-fetched :
    (r : Reserve) (t : ℕ)
    → r.stable_updated ≤ t
    → calc_expected_stable_debt_token_balance
        (pos r.principal)
        (pos r.average_rate)
        (pos r.stable_updated)
        (pos t)
      ≡ pos (stable_at r t)
unfolding calc_expected_stable_debt_token_balance
stable_at-fetched r t h = rw (calc_compounded_interest-pos r.average_rate t r.stable_updated h) (
    rw (ray_mul-pos r.principal (binomial_interest r.average_rate (t - r.stable_updated)))
      (ground arith))

-- The factor by which scaled debt has grown `d` seconds after the transaction, at the rate `v`.
abbrev pub factor_after : ℕ → ℕ → ℕ → ℕ
factor_after v index d = if v == 0 then index else multiplied (binomial_interest v d) index

factor_after-fetched :
    (v index t now : ℕ)
    → t ≤ now
    → calc_expected_reserve_normalized_debt (pos v) (pos index) (pos t) (pos now)
      ≡ pos (factor_after v index (now - t))
unfolding calc_expected_reserve_normalized_debt
factor_after-fetched v index t now h =
    rw (calc_compounded_interest-pos v now t h)
      (rw (ray_mul-pos (binomial_interest v (now - t)) index) (ground arith))

-- The scaled debt with what `amount` is worth at the debt index of the time `t`.
abbrev pub scaled_with : Reserve → ℕ → ℕ → ℕ
scaled_with r t amount = r.scaled + divided amount (next_debt_index r t)

-- The amounts that set the rates: the debts right after the transaction.
abbrev pub amounts_borrowed : Reserve → ℕ → ℕ → Amounts
amounts_borrowed r t amount = record {
  stable = stable_at r t;
  variable = multiplied (scaled_with r t amount) (next_debt_index r t);
  average = r.average_rate;
  available = r.available - amount;
  unbacked = r.unbacked;
}

-- The amounts at the time `now`, with interest at the new variable rate.
abbrev pub amounts_grown : Reserve → ℕ → ℕ → ℕ → ℕ → Amounts
amounts_grown r t now amount v = record {
  stable = next_stable r now;
  variable = multiplied (scaled_with r t amount) (factor_after v (next_debt_index r t) (now - t));
  average = r.average_rate;
  available = r.available - amount;
  unbacked = r.unbacked;
}

-- The draft with the new scaled debt.
abbrev pub lent : Reserve → ℕ → ℕ → ℕ → ReserveData
lent r t amount q =
    record (accrued_on
      (record (start_reserve (fetched_reserve r)) { last_update_timestamp = some (pos t) }) r t q) {
        scaled_variable_debt = some (pos (scaled_with r t amount));
      }

-- The reserve at the time `now` after the transaction.
abbrev pub borrowed : Reserve → ℕ → ℕ → ℕ → ℕ → ℕ → ℕ → ℕ → ReserveData
borrowed r t now amount q liquidity stable variable =
    let m = amounts_grown r t now amount variable in
    with_usage (with_rates (drafted (lent r t amount q) m) liquidity stable variable) m

module _ (reserves_params : SymbolMap ReserveParams) (r : Reserve)
    (l : Listing reserves_params r.symbol) (t : ℕ) (c : IsCurrent r t) where
  -- A variable borrow from a current, listed reserve, of an amount that is available, does not throw. It
  -- takes the amount out of the available liquidity, adds its worth at the new debt index to the scaled
  -- debt, never takes from the treasury, sets rates that fit the debts right after the transaction, and
  -- sets the total debts and the usage ratios to those of the time of the prediction, when the variable
  -- debt has grown at the new variable rate.
  pub borrow_variable_settles :
      (amount now : ℕ)
      → amount ≤ r.available
      → t ≤ now
      → (q liquidity stable variable : ℕ) × (calc_expected_reserve_data_after_borrow reserves_params
            (pos amount)
            RateMode.variable
            (fetched_reserve r)
            (pos t)
            (pos now)
          ≡ ok (borrowed r t now amount q liquidity stable variable))
        × (r.accrued ≤ q)
        × AreRates reserves_params r l (amounts_borrowed r t amount) liquidity stable variable
  unfolding calc_expected_reserve_data_after_borrow borrow_variable total_stable_of
      grown_variable_debt
  borrow_variable_settles amount now le later =
      let start : ReserveData = record (start_reserve (fetched_reserve r)) {
        last_update_timestamp = some (pos t);
      } in
      let index : ℕ = next_debt_index r t in
      let scaled : ℕ = scaled_with r t amount in
      let m0 = amounts_with r t (r.available - amount) in
      let m1 : Amounts = record m0 { stable = next_stable r now } in
      let m = amounts_borrowed r t amount in
      let (_, index_le, _) = indexes_grow r t c in
      let (q, accrue, q_ge) = update_state-fetched start r t c in
      let x : ReserveData = with_usage (lent r t amount q) m0 in
      let with_ratios = with_usage (lent r t amount q) m1 in
      let (liquidity, stable, variable, priced, rates) =
        set_rates-drafted reserves_params r l with_ratios m1 m.stable m.variable in
      let m2 = amounts_grown r t now amount variable in
      (
        q,
        liquidity,
        stable,
        variable,
        rw
            (
              accrue,
              update_liquidity-indebted (accrued_on start r t q) r m0 0 amount (omega arith)
                  (omega arith),
              stable_at-fetched r t (omega (arith, c.stable_updated_le, c.updated_le)),
              total_stable-fetched r now (omega (arith, c.stable_updated_le, c.updated_le)),
              ray_div-pos amount index (omega (arith, c.debt_index_ge)),
              +ℤ-pos r.scaled (divided amount index),
              ray_mul-pos scaled index,
            )
            (rw
              (
                set_usage_ratios-liquid
                    (record x { average_stable_borrow_rate = some (pos r.average_rate) }) m1,
                priced,
                factor_after-fetched variable index t now later,
                ray_mul-pos scaled (factor_after variable index (now - t)),
              )
              (set_usage_ratios-liquid
                (with_rates (drafted with_ratios m2) liquidity stable variable) m2)),
        q_ge,
        rates,
      )
