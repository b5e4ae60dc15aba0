-- ===== src/Contracts/ReserveLogic/StableDebt.antt =====
-- The total stable debt of test-suites/helpers/utils/calculations.ts against that of
-- contracts/protocol/tokenization/StableDebtToken.sol.
use native.Mathlib.Nat.{mul_comm}
use rasa_lending_platform_sm.Prelude.{
  ℕ, ◌+◌, ◌/◌, ◌^◌, ◌≤◌, ◌<◌, ◌≡◌, refl, sym, ◌∙◌, ap, Bool, true, false, some, arith, ◌==◌,
  if◌then◌else◌,
}
use rasa_lending_platform_sm.Prelude.Int.{pos}
use rasa_lending_platform_sm.WadRayMath
use rasa_lending_platform_sm.WadRayMath.{ray, half_ray}
use rasa_lending_platform_sm.WadRayMath.Rounding.{ray_mul-pos}
use rasa_lending_platform_sm.Calculations.Interest.{calc_expected_total_stable_debt}
use rasa_lending_platform_sm.Contracts.WadRayMath.{ray_mul}
use rasa_lending_platform_sm.Contracts.MathUtils.{◌>>=◌, calculate_compounded_interest}
use rasa_lending_platform_sm.Contracts.InterestRates.Calls.{>>=-eq-some, ray_mul-eq-some}
use rasa_lending_platform_sm.Contracts.MathUtils.Agreement.{calculate_compounded_interest_agrees}
use rasa_lending_platform_sm.Contracts.InterestRates.Ratios.{some_path}
use rasa_lending_platform_sm.Contracts.ReserveLogic.{StableDebtToken, calc_total_supply}

ray_mul_comm : (a b : ℕ) → WadRayMath.ray_mul (pos a) (pos b) ≡ WadRayMath.ray_mul (pos b) (pos a)
ray_mul_comm a b =
    ray_mul-pos a b ∙ ap (λ n. pos ((half_ray + n) / ray)) (mul_comm a b) ∙ sym (ray_mul-pos b a)

nothing_owed : (v : ℕ) → WadRayMath.ray_mul (pos v) (pos 0) ≡ pos 0
nothing_owed v = ray_mul-pos v 0 ∙ ap pos (omega arith)

pub total_stable-eq-some :
    (token : StableDebtToken) (now total : ℕ)
    → token.avg_stable_rate < 2 ^ 128
    → now < 2 ^ 40
    → token.total_supply_timestamp ≤ now
    → calc_total_supply token now ≡ some total
    → calc_expected_total_stable_debt
        (pos token.principal_supply)
        (pos token.avg_stable_rate)
        (pos token.total_supply_timestamp)
        (pos now)
      ≡ pos total
unfolding calc_total_supply calc_expected_total_stable_debt
total_stable-eq-some token now total p q le h =
    let (v, agrees, same) =
      calculate_compounded_interest_agrees token.avg_stable_rate token.total_supply_timestamp now p
        q le in
    ap (λ z. WadRayMath.ray_mul z (pos token.principal_supply)) same
    ∙ ray_mul_comm v token.principal_supply
    ∙ by_principal v agrees (token.principal_supply == 0) refl h
  where
    by_principal :
        (v : ℕ)
        → calculate_compounded_interest token.avg_stable_rate token.total_supply_timestamp now
          ≡ some v
        → (b : Bool) → (token.principal_supply == 0) ≡ b
        → (if b then some 0 else (do
          interest ←
              calculate_compounded_interest token.avg_stable_rate token.total_supply_timestamp now
          ray_mul token.principal_supply interest))
          ≡ some total
        → WadRayMath.ray_mul (pos token.principal_supply) (pos v) ≡ pos total
    by_principal v agrees true e h =
        let none_owed : token.principal_supply ≡ 0 = ground arith in
        ap (λ n. WadRayMath.ray_mul (pos n) (pos v)) none_owed
        ∙ ray_mul_comm 0 v
        ∙ nothing_owed v
        ∙ ap pos (some_path h)
    by_principal v agrees false e h =
        let (interest, e1, h1) =
          >>=-eq-some
            (calculate_compounded_interest token.avg_stable_rate token.total_supply_timestamp now) _
            h in
        let at : v ≡ interest = some_path (sym agrees ∙ e1) in
        ap (λ n. WadRayMath.ray_mul (pos token.principal_supply) (pos n)) at
        ∙ ray_mul-eq-some token.principal_supply interest total h1
