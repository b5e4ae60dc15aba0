-- ===== src/Contracts/InterestRates/Stages.antt =====
-- The stages of the rates of test-suites/helpers/utils/calculations.ts against those of
-- contracts/protocol/pool/DefaultReserveInterestRateStrategy.sol.
use rasa_lending_platform_sm.Prelude.{
  ℕ, ◌-◌, ◌≤◌, ◌≡◌, refl, ◌∙◌, ap, Bool, true, false, some, String, arith, ltb, if◌then◌else◌,
}
use rasa_lending_platform_sm.Prelude.Int.{pos, +ℤ-pos, -ℤ-pos, ltb_pos}
use rasa_lending_platform_sm.Prelude.Result.{ok}
use rasa_lending_platform_sm.WadRayMath.{ray}
use rasa_lending_platform_sm.Types.{InterestRateStrategyParams}
use rasa_lending_platform_sm.Calculations.Rates.{usage_rates, add_stable_excess}
use rasa_lending_platform_sm.Contracts.WadRayMath.{ray_mul, ray_div}
use rasa_lending_platform_sm.Contracts.MathUtils.{checked_add, checked_sub, ◌>>=◌}
use rasa_lending_platform_sm.Contracts.InterestRates.{
  Strategy, rate_above, rate_below, add_slopes, add_excess_offset,
}
use rasa_lending_platform_sm.Contracts.InterestRates.Calls.{
  >>=-eq-some, ray_mul-eq-some, ray_div-eq-some, checked_add-eq-some, checked_sub-eq-some,
  rate_above-eq-some, rate_below-eq-some,
}

-- The tests' parameters of a strategy.
abbrev pub to_params : String → Strategy → InterestRateStrategyParams
to_params name s = record {
  name = name;
  optimal_usage_ratio = pos s.optimal_usage_ratio;
  base_variable_borrow_rate = pos s.base_variable_borrow_rate;
  variable_rate_slope1 = pos s.variable_rate_slope1;
  variable_rate_slope2 = pos s.variable_rate_slope2;
  stable_rate_slope1 = pos s.stable_rate_slope1;
  stable_rate_slope2 = pos s.stable_rate_slope2;
  base_stable_rate_offset = pos s.base_stable_rate_offset;
  stable_rate_excess_offset = pos s.stable_rate_excess_offset;
  optimal_stable_to_total_debt_ratio = pos s.optimal_stable_to_total_debt_ratio;
}

-- What the constructor requires.
abbrev pub IsSound : Strategy → Type 0
IsSound s = (s.optimal_usage_ratio ≤ ray) × (s.optimal_stable_to_total_debt_ratio ≤ ray)

module _ (name : String) (s : Strategy) (sound : IsSound s) where
  pub add_slopes-eq-some :
      (base ratio : ℕ) (rates : ℕ × ℕ)
      → add_slopes s base ratio ≡ some rates
      → usage_rates (to_params name s) (pos base) (pos ratio) ≡ ok (pos rates.0, pos rates.1)
  unfolding add_slopes usage_rates
  add_slopes-eq-some base ratio rates h = by_ratio (ltb s.optimal_usage_ratio ratio) refl h
    where
      by_ratio :
          (b : Bool)
          → ltb s.optimal_usage_ratio ratio ≡ b
          → (if b
              then (do
                over ← checked_sub ratio s.optimal_usage_ratio
                excess ← ray_div over (ray - s.optimal_usage_ratio)
                stable_rate ← rate_above base s.stable_rate_slope1 s.stable_rate_slope2 excess
                variable_rate ←
                    rate_above s.base_variable_borrow_rate s.variable_rate_slope1
                      s.variable_rate_slope2 excess
                some (stable_rate, variable_rate))
              else (do
                stable_rate ← rate_below base s.stable_rate_slope1 ratio s.optimal_usage_ratio
                variable_rate ←
                    rate_below s.base_variable_borrow_rate s.variable_rate_slope1 ratio
                      s.optimal_usage_ratio
                some (stable_rate, variable_rate)))
            ≡ some rates
          → usage_rates (to_params name s) (pos base) (pos ratio) ≡ ok (pos rates.0, pos rates.1)
      by_ratio true above h =
          let (over, o, h1) = >>=-eq-some (checked_sub ratio s.optimal_usage_ratio) _ h in
          let (excess, e, h2) = >>=-eq-some (ray_div over (ray - s.optimal_usage_ratio)) _ h1 in
          let (sr, es, h3) =
            >>=-eq-some (rate_above base s.stable_rate_slope1 s.stable_rate_slope2 excess) _ h2 in
          let (vr, ev, h4) =
            >>=-eq-some
              (rate_above s.base_variable_borrow_rate s.variable_rate_slope1 s.variable_rate_slope2
                excess)
              _ h3 in
          let (le, difference) = checked_sub-eq-some ratio s.optimal_usage_ratio over o in
          let both : (sr, vr) ≡ rates = cc in
          let gave : usage_rates (to_params name s) (pos base) (pos ratio) ≡ ok (pos sr, pos vr) =
            rw
              (
                ltb_pos,
                above,
                -ℤ-pos ratio s.optimal_usage_ratio le,
                -ℤ-pos ray s.optimal_usage_ratio sound.0,
                difference,
                ray_div-eq-some over (ray - s.optimal_usage_ratio) excess (omega arith) e,
                rate_above-eq-some base s.stable_rate_slope1 s.stable_rate_slope2 excess sr es,
                rate_above-eq-some s.base_variable_borrow_rate s.variable_rate_slope1
                    s.variable_rate_slope2 excess vr ev,
              )
              refl in
          gave ∙ ap (λ r. ok (pos r.0, pos r.1)) both
      by_ratio false below h =
          let (sr, es, h1) =
            >>=-eq-some (rate_below base s.stable_rate_slope1 ratio s.optimal_usage_ratio) _ h in
          let (vr, ev, h2) =
            >>=-eq-some
              (rate_below s.base_variable_borrow_rate s.variable_rate_slope1 ratio
                s.optimal_usage_ratio)
              _ h1 in
          let (step, ds, ts) =
            rate_below-eq-some base s.stable_rate_slope1 ratio s.optimal_usage_ratio sr sound.0
              es in
          let (step', dv, tv) =
            rate_below-eq-some s.base_variable_borrow_rate s.variable_rate_slope1 ratio
              s.optimal_usage_ratio vr sound.0 ev in
          let both : (sr, vr) ≡ rates = cc in
          let gave : usage_rates (to_params name s) (pos base) (pos ratio) ≡ ok (pos sr, pos vr) =
            rw (ltb_pos, below, ds, dv, ts, tv) refl in
          gave ∙ ap (λ r. ok (pos r.0, pos r.1)) both

  pub add_excess_offset-eq-some :
      (share rate q : ℕ)
      → add_excess_offset s share rate ≡ some q
      → add_stable_excess (to_params name s) (pos share) (pos rate) ≡ ok (pos q)
  unfolding add_excess_offset add_stable_excess
  add_excess_offset-eq-some share rate q h =
      by_share (ltb s.optimal_stable_to_total_debt_ratio share) refl h
    where
      by_share :
          (b : Bool)
          → ltb s.optimal_stable_to_total_debt_ratio share ≡ b
          → (if b
              then (do
                over ← checked_sub share s.optimal_stable_to_total_debt_ratio
                excess ← ray_div over (ray - s.optimal_stable_to_total_debt_ratio)
                part ← ray_mul s.stable_rate_excess_offset excess
                checked_add rate part)
              else some rate)
            ≡ some q
          → add_stable_excess (to_params name s) (pos share) (pos rate) ≡ ok (pos q)
      by_share false below h = rw (ltb_pos, below) (ap (λ n. ok (pos n)) cc)
      by_share true above h =
          let (over, o, h1) =
            >>=-eq-some (checked_sub share s.optimal_stable_to_total_debt_ratio) _ h in
          let (excess, e, h2) =
            >>=-eq-some (ray_div over (ray - s.optimal_stable_to_total_debt_ratio)) _ h1 in
          let (part, p, h3) = >>=-eq-some (ray_mul s.stable_rate_excess_offset excess) _ h2 in
          let (le, difference) =
            checked_sub-eq-some share s.optimal_stable_to_total_debt_ratio over o in
          let (total, _) = checked_add-eq-some rate part q h3 in
          rw
            (
              ltb_pos,
              above,
              -ℤ-pos share s.optimal_stable_to_total_debt_ratio le,
              -ℤ-pos ray s.optimal_stable_to_total_debt_ratio sound.1,
              difference,
              ray_div-eq-some over (ray - s.optimal_stable_to_total_debt_ratio) excess (omega arith)
                  e,
              ray_mul-eq-some s.stable_rate_excess_offset excess part p,
              +ℤ-pos rate part,
              total,
            )
            refl
