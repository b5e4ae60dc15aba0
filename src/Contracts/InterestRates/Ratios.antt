-- ===== src/Contracts/InterestRates/Ratios.antt =====
-- The usage ratios of test-suites/helpers/utils/calculations.ts against those of
-- contracts/protocol/pool/DefaultReserveInterestRateStrategy.sol.
use rasa_lending_platform_sm.Prelude.{
  ℕ, ◌+◌, ◌*◌, ◌/◌, ◌<◌, ◌≡◌, refl, sym, ◌∙◌, ap, Bool, true, false, Bool-cases, inl, inr, some,
  arith, ltb, ◌==◌, if◌then◌else◌,
}
use rasa_lending_platform_sm.Prelude.Int.{ℤ, pos, ◌+ℤ◌, ltb_ℤ, +ℤ-pos, ltb_pos}
use rasa_lending_platform_sm.Prelude.Result.{Result, ok}
use rasa_lending_platform_sm.WadRayMath
use rasa_lending_platform_sm.WadRayMath.{ray, percentage_factor}
use rasa_lending_platform_sm.WadRayMath.Rounding.{ray_div-pos}
use rasa_lending_platform_sm.Calculations.Rates.{calc_expected_usage_ratios}
use rasa_lending_platform_sm.Calculations.Rates.Usage.{
  usage, ratio-pos, calc_expected_usage_ratios-pos,
}
use rasa_lending_platform_sm.Contracts.WadRayMath.{word, ray_div}
use rasa_lending_platform_sm.Contracts.MathUtils.{checked_add, checked_sub, ◌>>=◌}
use rasa_lending_platform_sm.Contracts.InterestRates.{Params, get_ratios}
use rasa_lending_platform_sm.Contracts.InterestRates.Calls.{
  >>=-eq-some, ray_div-eq-some, ray_div_by_zero, checked_add-eq-some, checked_sub-eq-some,
}

pub some_path : {A : Type 0} {a b : A} → some a ≡ some b → a ≡ b
some_path h = cc

-- The ratio of a debt that is not zero.
usage-eq-some :
    (debt liquidity all q : ℕ)
    → (debt == 0) ≡ false
    → liquidity + debt ≡ all
    → all < word
    → ray_div debt all ≡ some q
    → usage debt liquidity ≡ q
usage-eq-some debt liquidity all q owed sum fits h =
    let one = ratio-pos debt liquidity in
    let two : WadRayMath.ray_div (pos debt) (pos (liquidity + debt)) ≡ ok (pos q) =
      rw (sum) (ray_div-eq-some debt all q fits h) in
    let three : WadRayMath.ray_div (pos debt) (pos (liquidity + debt))
        ≡ ok (pos (usage debt liquidity)) =
      rw (← one, owed) refl in
    cc

-- The share of stable debt, which the tests take to be zero without such debt.
abbrev pub stable_share : ℕ → ℕ → Result ℤ
stable_share stable variable =
    if ltb_ℤ (pos 0) (pos stable)
    then WadRayMath.ray_div (pos stable) (pos stable +ℤ pos variable)
    else ok (pos 0)

half_below : (d : ℕ) → 0 < d → (d / 2 + 0 * ray) / d ≡ 0
half_below d p = grind arith

share_of_none : (total q : ℕ) → total < word → ray_div 0 total ≡ some q → q ≡ 0
share_of_none total q fits h = elim (Bool-cases (total == 0)) [
  | inl nothing ↦ let reverts = ray_div_by_zero 0 total nothing in cc
  | inr owed ↦
      let gave = ray_div-eq-some 0 total q fits h in
      let value = ray_div-pos 0 total (ground arith) in
      let small = half_below total (ground arith) in cc
]

stable_share-eq-some :
    (stable variable total q : ℕ)
    → stable + variable ≡ total
    → total < word
    → ray_div stable total ≡ some q
    → stable_share stable variable ≡ ok (pos q)
stable_share-eq-some stable variable total q sum fits h = elim (Bool-cases (ltb 0 stable)) [
  | inl owed ↦
      rw (ltb_pos, owed, +ℤ-pos stable variable, sum) (ray_div-eq-some stable total q fits h)
  | inr none_owed ↦
      let nothing : stable ≡ 0 = ground arith in
      rw (ltb_pos, none_owed)
        (ap (λ n. ok (pos n))
          (sym (share_of_none total q fits (ap (λ n. ray_div n total) (sym nothing) ∙ h))))
]

-- The ratios of the contract, where what is available is its balance, what is added and less what is taken.
pub ratios-eq-some :
    (params : Params) (total available : ℕ) (ratios : ℕ × ℕ × ℕ)
    → params.total_stable_debt + params.total_variable_debt ≡ total
    → total < word
    → available + params.liquidity_taken ≡ params.balance + params.liquidity_added
    → get_ratios params total ≡ some ratios
    → (usage total available ≡ ratios.1)
      × (usage total (available + params.unbacked) ≡ ratios.2)
      × (stable_share params.total_stable_debt params.total_variable_debt ≡ ok (pos ratios.0))
unfolding get_ratios
ratios-eq-some params total available ratios sum fits balanced h = by_total (total == 0) refl h
  where
    by_total :
        (b : Bool)
        → (total == 0) ≡ b
        → (if b then some (0, 0, 0) else (do
          share ← ray_div params.total_stable_debt total
          gross ← checked_add params.balance params.liquidity_added
          available ← checked_sub gross params.liquidity_taken
          with_debt ← checked_add available total
          borrow_ratio ← ray_div total with_debt
          with_unbacked ← checked_add with_debt params.unbacked
          supply_ratio ← ray_div total with_unbacked
          some (share, borrow_ratio, supply_ratio)))
          ≡ some ratios
        → (usage total available ≡ ratios.1)
          × (usage total (available + params.unbacked) ≡ ratios.2)
          × (stable_share params.total_stable_debt params.total_variable_debt ≡ ok (pos ratios.0))
    by_total true nothing h =
        let zeros : (0, 0, 0) ≡ ratios = cc in
        let no_stable : params.total_stable_debt ≡ 0 = ground arith in
        (
          rw (nothing) (ap (λ r. r.1) zeros),
          rw (nothing) (ap (λ r. r.2) zeros),
          rw (no_stable) (ap (λ r. ok (pos r.0)) zeros),
        )
    by_total false owed h =
        let (share, e1, h1) = >>=-eq-some (ray_div params.total_stable_debt total) _ h in
        let (gross, e2, h2) =
          >>=-eq-some (checked_add params.balance params.liquidity_added) _ h1 in
        let (left, e3, h3) = >>=-eq-some (checked_sub gross params.liquidity_taken) _ h2 in
        let (with_debt, e4, h4) = >>=-eq-some (checked_add left total) _ h3 in
        let (b, e5, h5) = >>=-eq-some (ray_div total with_debt) _ h4 in
        let (with_unbacked, e6, h6) = >>=-eq-some (checked_add with_debt params.unbacked) _ h5 in
        let (w, e7, h7) = >>=-eq-some (ray_div total with_unbacked) _ h6 in
        let (k2, _) = checked_add-eq-some params.balance params.liquidity_added gross e2 in
        let (le, k3) = checked_sub-eq-some gross params.liquidity_taken left e3 in
        let (k4, fits4) = checked_add-eq-some left total with_debt e4 in
        let (k6, fits6) = checked_add-eq-some with_debt params.unbacked with_unbacked e6 in
        let all : (share, b, w) ≡ ratios = cc in
        (
          usage-eq-some total available with_debt b owed (omega arith) fits4 e5 ∙ ap (λ r. r.1) all,
          usage-eq-some total (available + params.unbacked) with_unbacked w owed (omega arith) fits6
                e7
              ∙ ap (λ r. r.2) all,
          stable_share-eq-some params.total_stable_debt params.total_variable_debt total share sum
                fits e1
              ∙ ap (λ r. ok (pos r.0)) all,
        )

pub usage_ratios_are :
    (stable variable available unbacked total b w : ℕ)
    → stable + variable ≡ total
    → usage total available ≡ b
    → usage total (available + unbacked) ≡ w
    → calc_expected_usage_ratios
        (pos stable)
        (pos variable)
        (pos available)
        (pos (available + unbacked))
      ≡ ok (pos b, pos w)
usage_ratios_are stable variable available unbacked total b w sum borrowed supplied =
    calc_expected_usage_ratios-pos stable variable available unbacked
    ∙ ap (λ t. ok (pos (usage t available), pos (usage t (available + unbacked)))) sum
    ∙ ap (λ n. ok (pos n, pos (usage total (available + unbacked)))) borrowed
    ∙ ap (λ n. ok (pos b, pos n)) supplied
