-- ===== src/Calculations/Actions/Borrow.antt =====
-- Borrowing in test-suites/helpers/utils/calculations.ts moves the liquidity that it names, and
-- leaves a reserve whose totals and ratios fit.
use rasa_lending_platform_sm.Prelude.{◌≡◌, ◌∙◌, some, arith, if◌then◌else◌}
use rasa_lending_platform_sm.Prelude.Int.{ℤ, pos, ◌+ℤ◌, ◌-ℤ◌}
use rasa_lending_platform_sm.Prelude.Result.{ok, >>=-eq-ok, defined}
use rasa_lending_platform_sm.Types.{SymbolMap, ReserveParams, RateMode}
use rasa_lending_platform_sm.WadRayMath.{ray_div, ray_mul}
use rasa_lending_platform_sm.Calculations.Data.{ReserveData}
use rasa_lending_platform_sm.Calculations.Interest.{
  calc_expected_total_stable_debt, calc_expected_stable_debt_token_balance,
}
use rasa_lending_platform_sm.Calculations.Rates.{calc_expected_average_stable_borrow_rate}
use rasa_lending_platform_sm.Calculations.State.{
  update_state, set_usage_ratios, update_liquidity_and_usage_ratios, start_reserve, set_rates,
}
use rasa_lending_platform_sm.Calculations.Debt.{
  is_stable, total_stable_of, grown_variable_debt, borrow_stable, borrow_variable,
  calc_expected_reserve_data_after_borrow,
}
use rasa_lending_platform_sm.Calculations.Actions.Frame.{
  Frame, IsCoherent, set_usage_ratios-Frame, set_usage_ratios-IsCoherent, set_rates-Frame,
  update_liquidity-moves,
}
use rasa_lending_platform_sm.Calculations.Actions.Coherence.{Moves}

Frame-trans : (x y z : ReserveData) → Frame x y → Frame y z → Frame x z
Frame-trans x y z (a, b, c) (a', b', c') = (a' ∙ a, b' ∙ b, c' ∙ c)

module _ (before : ReserveData) (tx now : ℤ) where
  grown-Frame :
      (scaled : ℤ) (x : ReserveData) {e : ReserveData}
      → grown_variable_debt before scaled x tx now ≡ ok e
      → Frame x e
  unfolding grown_variable_debt
  grown-Frame scaled x h = ground arith

-- Liquidity, unbacked amount and total of a draft.
abbrev Has : ReserveData → ℤ → ℤ → Type 0
Has x a u =
    (x.available_liquidity ≡ some a) × (x.unbacked ≡ some u) × (x.total_liquidity ≡ some (a +ℤ u))

ends :
    (x grown : ReserveData) (a u : ℤ) {e : ReserveData}
    → Has x a u
    → Frame x grown
    → set_usage_ratios grown ≡ ok e
    → IsCoherent e × (e.available_liquidity ≡ some a)
ends x grown a u (available, unbacked, total) (a_eq, u_eq, t_eq) h = (
  set_usage_ratios-IsCoherent grown a u (a_eq ∙ available) (u_eq ∙ unbacked) (t_eq ∙ total) h,
  (set_usage_ratios-Frame grown h).0 ∙ a_eq ∙ available,
)

module _ (ps : SymbolMap ReserveParams) (amount : ℤ) (before x : ReserveData) (tx now a u : ℤ)
    (has : Has x a u) where
  borrow_stable-ends :
      {e : ReserveData}
      → borrow_stable ps amount before x tx now ≡ ok e
      → IsCoherent e × (e.available_liquidity ≡ some a)
  unfolding borrow_stable
  borrow_stable-ends h =
      let (debt, _, h₁) = >>=-eq-ok (total_stable_of before tx) _ h in
      let (rate_before, _, h₂) = >>=-eq-ok (defined before.average_stable_borrow_rate) _ h₁ in
      let (rate, _, h₃) = >>=-eq-ok (defined before.stable_borrow_rate) _ h₂ in
      let (average, _, h₄) =
        >>=-eq-ok (calc_expected_average_stable_borrow_rate rate_before debt amount rate) _ h₃ in
      let principal = debt +ℤ amount in
      let borrowed = record x {
        average_stable_borrow_rate = some average;
        principal_stable_debt = some principal;
      } in
      let (variable, _, h₅) = >>=-eq-ok (defined x.total_variable_debt) _ h₄ in
      let (priced, rates, h₆) = >>=-eq-ok (set_rates ps before principal variable borrowed) _ h₅ in
      let (scaled, _, h₇) = >>=-eq-ok (defined before.scaled_variable_debt) _ h₆ in
      let total = calc_expected_total_stable_debt principal average tx now in
      let totalled = record priced { total_stable_debt = some total } in
      let (grown, grows, h₈) = >>=-eq-ok (grown_variable_debt before scaled totalled tx now) _ h₇ in
      ends x grown a u has
        (Frame-trans x totalled grown (set_rates-Frame ps before principal variable borrowed rates)
          (grown-Frame before tx now scaled totalled grows))
        h₈

  borrow_variable-ends :
      {e : ReserveData}
      → borrow_variable ps amount before x tx now ≡ ok e
      → IsCoherent e × (e.available_liquidity ≡ some a)
  unfolding borrow_variable
  borrow_variable-ends h =
      let (principal, _, h₁) = >>=-eq-ok (defined before.principal_stable_debt) _ h in
      let (average, _, h₂) = >>=-eq-ok (defined before.average_stable_borrow_rate) _ h₁ in
      let (last, _, h₃) = >>=-eq-ok (defined before.total_stable_debt_last_updated) _ h₂ in
      let (total, _, h₄) = >>=-eq-ok (total_stable_of before now) _ h₃ in
      let (scaled_before, _, h₅) = >>=-eq-ok (defined before.scaled_variable_debt) _ h₄ in
      let (index, _, h₆) = >>=-eq-ok (defined x.variable_borrow_index) _ h₅ in
      let (added, _, h₇) = >>=-eq-ok (ray_div amount index) _ h₆ in
      let scaled = scaled_before +ℤ added in
      let borrowed = record x {
        principal_stable_debt = before.principal_stable_debt;
        total_stable_debt = some total;
        average_stable_borrow_rate = before.average_stable_borrow_rate;
        scaled_variable_debt = some scaled;
      } in
      let (rated, ratios, h₈) = >>=-eq-ok (set_usage_ratios borrowed) _ h₇ in
      let stable = calc_expected_stable_debt_token_balance principal average last tx in
      let (priced, rates, h₉) =
        >>=-eq-ok (set_rates ps before stable (ray_mul scaled index) rated) _ h₈ in
      let (grown, grows, h₁₀) = >>=-eq-ok (grown_variable_debt before scaled priced tx now) _ h₉ in
      ends x grown a u has
        (Frame-trans x rated grown (set_usage_ratios-Frame borrowed ratios) (
          Frame-trans rated priced grown
            (set_rates-Frame ps before stable (ray_mul scaled index) rated rates)
            (grown-Frame before tx now scaled priced grows)))
        h₁₀

  pub branch-ends :
      (mode : RateMode) {e : ReserveData}
      → (if is_stable mode
          then borrow_stable ps amount before x tx now
          else borrow_variable ps amount before x tx now)
        ≡ ok e
      → IsCoherent e × (e.available_liquidity ≡ some a)
  branch-ends RateMode.none h = borrow_variable-ends h
  branch-ends RateMode.stable h = borrow_stable-ends h
  branch-ends RateMode.variable h = borrow_variable-ends h

pub borrow-Moves :
    (ps : SymbolMap ReserveParams) (amount : ℤ) (mode : RateMode) (before : ReserveData)
    (tx now : ℤ) {e : ReserveData}
    → calc_expected_reserve_data_after_borrow ps amount mode before tx now ≡ ok e
    → Moves before (pos 0) amount e
unfolding calc_expected_reserve_data_after_borrow
borrow-Moves ps amount mode before tx now h =
    let start = record (start_reserve before) { last_update_timestamp = some tx } in
    let (x, _, h₁) = >>=-eq-ok (update_state before start tx) _ h in
    let (drained, moved, h₂) =
      >>=-eq-ok (update_liquidity_and_usage_ratios before x (pos 0) amount) _ h₁ in
    let (a, u, start_eq, has) = update_liquidity-moves before x (pos 0) amount moved in
    let (coherent, available) =
      branch-ends ps amount before drained tx now (a +ℤ pos 0 -ℤ amount) u has mode h₂ in
    record { coherent = coherent; start = a; start_eq = start_eq; available_eq = available }
