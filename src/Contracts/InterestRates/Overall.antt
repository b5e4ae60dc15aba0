-- ===== src/Contracts/InterestRates/Overall.antt =====
-- The overall borrow rate of test-suites/helpers/utils/calculations.ts against that of
-- contracts/protocol/pool/DefaultReserveInterestRateStrategy.sol.
use rasa_lending_platform_sm.Prelude.{
  ℕ, ◌+◌, ◌<◌, ◌≡◌, refl, ap, Bool, true, false, some, arith, ◌==◌, if◌then◌else◌,
}
use rasa_lending_platform_sm.Prelude.Int.{pos, +ℤ-pos, eqb_pos}
use rasa_lending_platform_sm.Prelude.Result.{ok}
use rasa_lending_platform_sm.Calculations.Rates.{calc_expected_overall_borrow_rate}
use rasa_lending_platform_sm.Contracts.WadRayMath.{word, ray_mul, ray_div, wad_to_ray}
use rasa_lending_platform_sm.Contracts.MathUtils.{checked_add, ◌>>=◌}
use rasa_lending_platform_sm.Contracts.InterestRates.{get_overall_borrow_rate}
use rasa_lending_platform_sm.Contracts.InterestRates.Calls.{
  >>=-eq-some, ray_mul-eq-some, ray_div-eq-some, checked_add-eq-some, wad_to_ray-eq-some,
}

-- The weighted rate of both debts.
pub overall-eq-some :
    (stable variable variable_rate average q : ℕ)
    → get_overall_borrow_rate stable variable variable_rate average ≡ some q
    → calc_expected_overall_borrow_rate
        (pos stable)
        (pos variable)
        (pos variable_rate)
        (pos average)
      ≡ ok (pos q)
unfolding get_overall_borrow_rate calc_expected_overall_borrow_rate
overall-eq-some stable variable variable_rate average q h =
    let (total, t, h1) = >>=-eq-some (checked_add stable variable) _ h in
    let (sum, fits) = checked_add-eq-some stable variable total t in
    by_total total sum fits (total == 0) refl h1
  where
    by_total :
        (total : ℕ)
        → stable + variable ≡ total
        → total < word
        → (b : Bool) → (total == 0) ≡ b
        → (if b then some 0 else (do
          variable_rays ← wad_to_ray variable
          weighted_variable ← ray_mul variable_rays variable_rate
          stable_rays ← wad_to_ray stable
          weighted_stable ← ray_mul stable_rays average
          weighted ← checked_add weighted_variable weighted_stable
          rays ← wad_to_ray total
          ray_div weighted rays))
          ≡ some q
        → calc_expected_overall_borrow_rate
            (pos stable)
            (pos variable)
            (pos variable_rate)
            (pos average)
          ≡ ok (pos q)
    by_total total sum fits true none_owed h =
        rw (+ℤ-pos stable variable, eqb_pos, sum, none_owed) (ap (λ n. ok (pos n)) cc)
    by_total total sum fits false owed h =
        let (vr, e1, h1) = >>=-eq-some (wad_to_ray variable) _ h in
        let (wv, e2, h2) = >>=-eq-some (ray_mul vr variable_rate) _ h1 in
        let (sr, e3, h3) = >>=-eq-some (wad_to_ray stable) _ h2 in
        let (ws, e4, h4) = >>=-eq-some (ray_mul sr average) _ h3 in
        let (weighted, e5, h5) = >>=-eq-some (checked_add wv ws) _ h4 in
        let (rays, e6, h6) = >>=-eq-some (wad_to_ray total) _ h5 in
        let (k1, _) = wad_to_ray-eq-some variable vr (omega arith) e1 in
        let (k3, _) = wad_to_ray-eq-some stable sr (omega arith) e3 in
        let (k6, small) = wad_to_ray-eq-some total rays fits e6 in
        let (k5, _) = checked_add-eq-some wv ws weighted e5 in
        rw
          (
            +ℤ-pos stable variable,
            eqb_pos,
            sum,
            owed,
            k1,
            ray_mul-eq-some vr variable_rate wv e2,
            k3,
            ray_mul-eq-some sr average ws e4,
            +ℤ-pos wv ws,
            k5,
            k6,
          )
          (ray_div-eq-some weighted rays q small h6)
