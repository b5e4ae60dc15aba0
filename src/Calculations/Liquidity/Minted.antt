-- ===== src/Calculations/Liquidity/Minted.antt =====
-- Minting unbacked tokens in test-suites/helpers/utils/calculations.ts, as a whole.
use native.Mathlib.Nat.{div-eq_of_lt-le}
use rasa_lending_platform_sm.Prelude.{
  ℕ, ◌+◌, ◌*◌, ◌/◌, ◌<◌, ◌≤◌, ◌≡◌, ◌∙◌, ap, some, arith, ◌==◌, if◌then◌else◌, inl, inr, Bool-cases,
}
use rasa_lending_platform_sm.Prelude.Int.{pos, +ℤ-pos}
use rasa_lending_platform_sm.Prelude.Result.{ok}
use rasa_lending_platform_sm.Types.{SymbolMap, ReserveParams}
use rasa_lending_platform_sm.Calculations.Data.{ReserveData}
use rasa_lending_platform_sm.Calculations.Snapshot.{Reserve, fetched_reserve}
use rasa_lending_platform_sm.Calculations.Rates.{calc_expected_average_stable_borrow_rate}
use rasa_lending_platform_sm.Calculations.Rates.Average.{average-pos}
use rasa_lending_platform_sm.Calculations.Rates.Total.{Listing}
use rasa_lending_platform_sm.Calculations.State.{start_reserve}
use rasa_lending_platform_sm.Calculations.State.Accrual.{
  IsCurrent, next_stable, next_variable, accrued_on, update_state-fetched,
}
use rasa_lending_platform_sm.Calculations.State.Settlement.{
  Amounts, drafted, with_usage, with_rates, AreRates, update_liquidity-indebted,
  finish_reserve-drafted,
}
use rasa_lending_platform_sm.Calculations.Liquidity.{
  keep_average_rate, calc_expected_reserve_data_after_mint_unbacked,
}

-- The average stable rate with no change of debt: it stays, or is zero if there is no stable debt.
abbrev pub kept_rate : Reserve → ℕ
kept_rate r = if r.stable == 0 then 0 else r.average_rate

weighted_alone : (a n b : ℕ) → 0 < n → (a * n + b * 0) / (n + 0) ≡ a
weighted_alone a n b p =
    ap (λ (d : ℕ). (a * n + b * 0) / d) (omega arith)
    ∙ div-eq_of_lt-le n (omega arith) (grind arith)

keep_average-fetched :
    (r : Reserve) (x : ReserveData)
    → keep_average_rate (fetched_reserve r) x
      ≡ ok (record x { average_stable_borrow_rate = some (pos (kept_rate r)) })
unfolding keep_average_rate
keep_average-fetched r x = elim (Bool-cases (r.stable == 0)) [
  | inl e ↦
      rw e
        (unfold calc_expected_average_stable_borrow_rate in (rw (+ℤ-pos r.stable 0) (ground arith)))
  | inr e ↦
      let some_debt : 0 < r.stable = ground arith in
      rw (e, average-pos r.average_rate r.stable 0 r.stable_rate (omega arith))
        (rw (weighted_alone r.average_rate r.stable r.stable_rate some_debt))
]

-- The amounts after the mint.
abbrev pub amounts_minted : Reserve → ℕ → ℕ → Amounts
amounts_minted r t amount = record {
  stable = next_stable r t;
  variable = next_variable r t;
  average = kept_rate r;
  available = r.available;
  unbacked = r.unbacked + amount;
}

-- The reserve after the mint.
abbrev pub minted : Reserve → ℕ → ℕ → ℕ → ℕ → ℕ → ℕ → ReserveData
minted r t amount q liquidity stable variable =
    let m = amounts_minted r t amount in
    let accrued = accrued_on (start_reserve (fetched_reserve r)) r t q in
    with_usage (with_rates (drafted accrued m) liquidity stable variable) m

module _ (reserves_params : SymbolMap ReserveParams) (r : Reserve)
    (l : Listing reserves_params r.symbol) (t : ℕ) (c : IsCurrent r t) where
  -- Minting unbacked tokens in a current, listed reserve does not throw. It adds the amount to what is
  -- unbacked and leaves the available liquidity, brings indexes and debts to the time of the
  -- transaction, never takes from the treasury, keeps the average stable rate unless there is no stable
  -- debt, when it is zero, and sets the usage ratios of the new amounts and the rates that
  -- `calcExpectedInterestRates` gives for them.
  pub mint_unbacked_settles :
      (amount : ℕ)
      → (q liquidity stable variable : ℕ) × (calc_expected_reserve_data_after_mint_unbacked
            reserves_params
            (pos amount)
            (fetched_reserve r)
            (pos t)
          ≡ ok (minted r t amount q liquidity stable variable))
        × (r.accrued ≤ q)
        × AreRates reserves_params r l (amounts_minted r t amount) liquidity stable variable
  unfolding calc_expected_reserve_data_after_mint_unbacked
  mint_unbacked_settles amount =
      let m = amounts_minted r t amount in
      let (q, accrue, q_ge) = update_state-fetched (start_reserve (fetched_reserve r)) r t c in
      let accrued = accrued_on (start_reserve (fetched_reserve r)) r t q in
      let (liquidity, stable, variable, finish, rates) =
        finish_reserve-drafted reserves_params r l (with_usage accrued m) m in
      (
        q,
        liquidity,
        stable,
        variable,
        rw
            (
              accrue,
              +ℤ-pos r.unbacked amount,
              update_liquidity-indebted accrued r m 0 0 (omega arith) (omega arith),
              keep_average-fetched r,
            )
            finish,
        q_ge,
        rates,
      )
