-- ===== src/Contracts/ReserveLogic/Indexes.antt =====
-- The indexes of test-suites/helpers/utils/calculations.ts against those of
-- contracts/protocol/libraries/logic/ReserveLogic.sol.
use rasa_lending_platform_sm.Prelude.{
  ℕ, ◌^◌, ◌≤◌, ◌<◌, ◌≡◌, refl, sym, ◌∙◌, ap, Bool, true, false, Option, some, arith, Bool-cases,
  inl, inr, ◌==◌, if◌then◌else◌,
}
use rasa_lending_platform_sm.Prelude.Int.{ℤ, pos, eqb_ℤ, eqb_pos}
use rasa_lending_platform_sm.WadRayMath
use rasa_lending_platform_sm.WadRayMath.{ray}
use rasa_lending_platform_sm.WadRayMath.Rounding.{ray_mul-pos}
use rasa_lending_platform_sm.Calculations.Interest.Closed.{calc_linear_interest-pos}
use rasa_lending_platform_sm.Calculations.Interest.{calc_linear_interest, calc_compounded_interest}
use rasa_lending_platform_sm.Contracts.WadRayMath.{ray_mul}
use rasa_lending_platform_sm.Contracts.MathUtils.{
  calculate_linear_interest, calculate_compounded_interest, ◌>>=◌,
}
use rasa_lending_platform_sm.Contracts.MathUtils.Agreement.{
  calculate_linear_interest_agrees, calculate_compounded_interest_agrees,
}
use rasa_lending_platform_sm.Contracts.InterestRates.Calls.{>>=-eq-some, ray_mul-eq-some}
use rasa_lending_platform_sm.Contracts.InterestRates.Ratios.{some_path}

-- An index that grows by an interest on which contract and tests agree.
grown-eq-some :
    (call : Option ℕ) (interest : ℤ) (index n v : ℕ)
    → call ≡ some v
    → interest ≡ pos v
    → (call >>= λ i. ray_mul i index) ≡ some n
    → WadRayMath.ray_mul interest (pos index) ≡ pos n
grown-eq-some call interest index n v agrees same h =
    let (i, e, h1) = >>=-eq-some call (λ i. ray_mul i index) h in
    let at : i ≡ v = some_path (sym e ∙ agrees) in
    ap (λ z. WadRayMath.ray_mul z (pos index)) (same ∙ ap pos (sym at))
    ∙ ray_mul-eq-some i index n h1

pub linear-eq-some :
    (rate last now index n : ℕ)
    → rate < 2 ^ 128
    → now < 2 ^ 40
    → last ≤ now
    → (calculate_linear_interest rate last now >>= λ i. ray_mul i index) ≡ some n
    → WadRayMath.ray_mul (calc_linear_interest (pos rate) (pos now) (pos last)) (pos index) ≡ pos n
linear-eq-some rate last now index n p q le h =
    let (v, agrees, same) = calculate_linear_interest_agrees rate last now p q le in
    grown-eq-some (calculate_linear_interest rate last now) _ index n v agrees same h

pub compounded-eq-some :
    (rate last now index n : ℕ)
    → rate < 2 ^ 128
    → now < 2 ^ 40
    → last ≤ now
    → (calculate_compounded_interest rate last now >>= λ i. ray_mul i index) ≡ some n
    → WadRayMath.ray_mul (calc_compounded_interest (pos rate) (pos now) (pos last)) (pos index)
      ≡ pos n
compounded-eq-some rate last now index n p q le h =
    let (v, agrees, same) = calculate_compounded_interest_agrees rate last now p q le in
    grown-eq-some (calculate_compounded_interest rate last now) _ index n v agrees same h

-- Without income the tests may grow the index by an interest of one ray, which changes nothing.
idle_index :
    (last now index : ℕ)
    → last ≤ now
    → WadRayMath.ray_mul (calc_linear_interest (pos 0) (pos now) (pos last)) (pos index) ≡ pos index
idle_index last now index le =
    ap (λ z. WadRayMath.ray_mul z (pos index))
      (calc_linear_interest-pos 0 now last le ∙ ap pos (omega arith))
    ∙ ray_mul-pos ray index
    ∙ ap pos (omega arith)

-- The two forms of each index: what the tests test is zero no more often than what the contract tests.
pub liquidity_index-eq-some :
    (usage rate last now index n : ℕ)
    → rate < 2 ^ 128
    → now < 2 ^ 40
    → last ≤ now
    → (usage ≡ 0 → rate ≡ 0)
    → (if rate == 0
        then some index
        else (calculate_linear_interest rate last now >>= λ i. ray_mul i index))
      ≡ some n
    → (if eqb_ℤ (pos usage) (pos 0)
        then pos index
        else WadRayMath.ray_mul (calc_linear_interest (pos rate) (pos now) (pos last)) (pos index))
      ≡ pos n
liquidity_index-eq-some usage rate last now index n p q le idle h = by_rate (rate == 0) refl h
  where
    next : ℤ
    next = WadRayMath.ray_mul (calc_linear_interest (pos rate) (pos now) (pos last)) (pos index)

    by_rate :
        (b : Bool)
        → (rate == 0) ≡ b
        → (if b
            then some index
            else (calculate_linear_interest rate last now >>= λ i. ray_mul i index))
          ≡ some n
        → (if eqb_ℤ (pos usage) (pos 0) then pos index else next) ≡ pos n
    by_rate true e h =
        let none_earned : rate ≡ 0 = ground arith in
        let kept =
          ap
            (λ r.
              WadRayMath.ray_mul (calc_linear_interest (pos r) (pos now) (pos last)) (pos index))
            none_earned
          ∙ idle_index last now index le in
        let same : index ≡ n = some_path h in
        elim (Bool-cases (usage == 0)) [
          | inl none_used ↦ rw (eqb_pos usage, none_used) (ap pos same)
          | inr used ↦ rw (eqb_pos usage, used) (kept ∙ ap pos same)
        ]
    by_rate false e h =
        let used : (usage == 0) ≡ false = grind (arith, idle) in
        rw (eqb_pos usage, used) (linear-eq-some rate last now index n p q le h)

pub variable_borrow_index-eq-some :
    (variable scaled rate last now index n : ℕ)
    → rate < 2 ^ 128
    → now < 2 ^ 40
    → last ≤ now
    → (variable == 0) ≡ (scaled == 0)
    → (if scaled == 0
        then some index
        else (calculate_compounded_interest rate last now >>= λ i. ray_mul i index))
      ≡ some n
    → (if eqb_ℤ (pos variable) (pos 0)
        then pos index
        else WadRayMath.ray_mul
            (calc_compounded_interest (pos rate) (pos now) (pos last))
            (pos index))
      ≡ pos n
variable_borrow_index-eq-some variable scaled rate last now index n p q le same h =
    rw (eqb_pos variable, same) (by_debt (scaled == 0) h)
  where
    by_debt :
        (b : Bool)
        → (if b
            then some index
            else (calculate_compounded_interest rate last now >>= λ i. ray_mul i index))
          ≡ some n
        → (if b
            then pos index
            else WadRayMath.ray_mul
                (calc_compounded_interest (pos rate) (pos now) (pos last))
                (pos index))
          ≡ pos n
    by_debt true h = ap pos (some_path h)
    by_debt false h = compounded-eq-some rate last now index n p q le h
