-- ===== src/Contracts/InterestRates/Calls.antt =====
-- A call of the contracts that did not revert gave what the tests compute: the steps of
-- contracts/protocol/pool/DefaultReserveInterestRateStrategy.sol.
use rasa_lending_platform_sm.Prelude.{
  ℕ, ◌+◌, ◌-◌, ◌*◌, ◌/◌, ◌≤◌, ◌<◌, ◌≡◌, refl, sym, ◌∙◌, ap, true, Bool-cases, inl, inr, Option,
  none, some, arith, ◌==◌,
}
use rasa_lending_platform_sm.Prelude.Int.{ℤ, pos, ◌+ℤ◌, +ℤ-pos}
use rasa_lending_platform_sm.Prelude.Result.{ok}
use rasa_lending_platform_sm.WadRayMath
use rasa_lending_platform_sm.WadRayMath.{
  ray, half_ray, percentage_factor, half_percentage, wad_ray_ratio,
}
use rasa_lending_platform_sm.WadRayMath.Rounding.{
  ray_mul-pos, ray_div-pos, wad_to_ray-pos, percent_mul-pos,
}
use rasa_lending_platform_sm.Contracts.WadRayMath.{word, ray_mul, ray_div, wad_to_ray, percent_mul}
use rasa_lending_platform_sm.Contracts.WadRayMath.Agreement.{
  within_word, checked_word, ray_mul_agrees, ray_div_agrees, percent_mul_agrees, conversions_agree,
}
use rasa_lending_platform_sm.Contracts.MathUtils.{checked_add, checked_sub, ◌>>=◌}
use rasa_lending_platform_sm.Contracts.InterestRates.{rate_above, rate_below}

-- A sequence that did not revert has a first call that did not.
pub >>=-eq-some :
    {A B : Type 0} (call : Option A) (next : A → Option B) {b : B}
    → (call >>= next) ≡ some b
    → (a : A) × (call ≡ some a) × (next a ≡ some b)
>>=-eq-some none next h = cc
>>=-eq-some (some a) next h = (a, refl, h)

-- What a call that did not revert gave is what the tests compute.
within_word-eq-some : (working n q : ℕ) → within_word working (pos n) ≡ some q → n ≡ q
within_word-eq-some working n q h = ground arith

-- An operation that agrees with one of the tests within a word.
agreed :
    (working n q : ℕ) (z : ℤ) (o : Option ℕ)
    → o ≡ within_word working z
    → z ≡ pos n
    → o ≡ some q
    → z ≡ pos q
agreed working n q z o agrees value h =
    value
    ∙ ap pos
        (within_word-eq-some working n q (ap (within_word working) (sym value) ∙ sym agrees ∙ h))

pub ray_mul-eq-some :
    (a b q : ℕ) → ray_mul a b ≡ some q → WadRayMath.ray_mul (pos a) (pos b) ≡ pos q
ray_mul-eq-some a b q h =
    agreed (a * b + half_ray) _ q _ (ray_mul a b) (ray_mul_agrees a b) (ray_mul-pos a b) h

pub percent_mul-eq-some :
    (a b q : ℕ) → percent_mul a b ≡ some q → WadRayMath.percent_mul (pos a) (pos b) ≡ pos q
percent_mul-eq-some a b q h =
    agreed (a * b + half_percentage) _ q _ (percent_mul a b) (percent_mul_agrees a b)
      (percent_mul-pos a b) h

pub ray_div_by_zero : (a b : ℕ) → (b == 0) ≡ true → ray_div a b ≡ none
unfolding ray_div
ray_div_by_zero a b h = rw (h) refl

pub ray_div-eq-some :
    (a b q : ℕ) → b < word → ray_div a b ≡ some q → WadRayMath.ray_div (pos a) (pos b) ≡ ok (pos q)
ray_div-eq-some a b q fits h = elim (Bool-cases (b == 0)) [
  | inl zero_divisor ↦ let reverts = ray_div_by_zero a b zero_divisor in cc
  | inr other ↦
      let value = ray_div-pos a b (ground arith) in
      value
      ∙ ap (λ n. ok (pos n))
          (within_word-eq-some (a * ray + b / 2) _ q
            (ap (checked_word (a * ray + b / 2)) (sym value) ∙ sym (ray_div_agrees a b fits) ∙ h))
]

pub checked_add-eq-some : (a b c : ℕ) → checked_add a b ≡ some c → (a + b ≡ c) × (c < word)
unfolding checked_add
checked_add-eq-some a b c h = (ground arith, ground arith)

pub checked_sub-eq-some : (a b c : ℕ) → checked_sub a b ≡ some c → (b ≤ a) × (a - b ≡ c)
unfolding checked_sub
checked_sub-eq-some a b c h = (ground arith, ground arith)

wad_to_ray_fits : (a q : ℕ) → wad_to_ray a ≡ some q → q < word
unfolding wad_to_ray
wad_to_ray_fits a q h = ground arith

pub wad_to_ray-eq-some :
    (a q : ℕ)
    → a < word
    → wad_to_ray a ≡ some q
    → (WadRayMath.wad_to_ray (pos a) ≡ pos q) × (q < word)
wad_to_ray-eq-some a q fits h = (
  agreed (a * wad_ray_ratio) _ q _ (wad_to_ray a) ((conversions_agree a fits).1) (wad_to_ray-pos a)
      h,
  wad_to_ray_fits a q h,
)

pub rate_above-eq-some :
    (rate slope1 slope2 excess q : ℕ)
    → rate_above rate slope1 slope2 excess ≡ some q
    → pos rate +ℤ pos slope1 +ℤ WadRayMath.ray_mul (pos slope2) (pos excess) ≡ pos q
unfolding rate_above
rate_above-eq-some rate slope1 slope2 excess q h =
    let (part, p, h1) = >>=-eq-some (ray_mul slope2 excess) _ h in
    let (step, t, h2) = >>=-eq-some (checked_add slope1 part) _ h1 in
    let (one, _) = checked_add-eq-some slope1 part step t in
    let (two, _) = checked_add-eq-some rate step q h2 in
    rw (ray_mul-eq-some slope2 excess part p, +ℤ-pos rate slope1, +ℤ-pos (rate + slope1) part)
      (ap pos (omega arith))

pub rate_below-eq-some :
    (rate slope1 ratio optimal q : ℕ)
    → optimal ≤ ray
    → rate_below rate slope1 ratio optimal ≡ some q
    → (step : ℕ) × (WadRayMath.ray_div (WadRayMath.ray_mul (pos slope1) (pos ratio)) (pos optimal)
        ≡ ok (pos step))
      × (pos rate +ℤ pos step ≡ pos q)
unfolding rate_below
rate_below-eq-some rate slope1 ratio optimal q small h =
    let (part, p, h1) = >>=-eq-some (ray_mul slope1 ratio) _ h in
    let (step, t, h2) = >>=-eq-some (ray_div part optimal) _ h1 in
    let (one, _) = checked_add-eq-some rate step q h2 in
    (
      step,
      rw (ray_mul-eq-some slope1 ratio part p) (ray_div-eq-some part optimal step (omega arith) t),
      rw (+ℤ-pos rate step) (ap pos one),
    )
