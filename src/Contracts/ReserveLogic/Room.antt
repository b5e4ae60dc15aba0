-- ===== src/Contracts/ReserveLogic/Room.antt =====
-- Where contracts/protocol/libraries/logic/ReserveLogic.sol does not revert: the numbers have room to
-- grow in.
use rasa_lending_platform_sm.Prelude.{
  ℕ, ◌+◌, ◌-◌, ◌*◌, ◌/◌, ◌^◌, ◌≤◌, ◌<◌, ◌≡◌, refl, sym, ◌∙◌, some, arith, ◌==◌, mul-le-mul,
  Bool-cases, inl, inr,
}
use rasa_lending_platform_sm.Prelude.Int.{pos}
use rasa_lending_platform_sm.WadRayMath.{ray, percentage_factor, half_percentage}
use rasa_lending_platform_sm.WadRayMath.Rounding.{ray_div-pos, percent_mul-pos}
use rasa_lending_platform_sm.WadRayMath.Order.{multiplied, divided, divided_anti}
use rasa_lending_platform_sm.Calculations.Interest.{one_year}
use rasa_lending_platform_sm.Calculations.Interest.Closed.{
  binomial_interest, calc_compounded_interest-pos, calc_linear_interest-pos,
}
use rasa_lending_platform_sm.Contracts.WadRayMath.{max_word, ray_mul, ray_div, percent_mul}
use rasa_lending_platform_sm.Contracts.WadRayMath.Agreement.{percent_mul_agrees, ray_div_agrees}
use rasa_lending_platform_sm.Contracts.MathUtils.{
  calculate_compounded_interest, calculate_linear_interest,
}
use rasa_lending_platform_sm.Contracts.MathUtils.Agreement.{
  ray_mul-fits, checked_add-fits, checked_sub-fits, calculate_compounded_interest_agrees,
  calculate_linear_interest_agrees,
}
use rasa_lending_platform_sm.Contracts.ReserveLogic.{
  ReserveCache, to_uint128, mint_to_treasury, accrue_to_treasury,
}

pub ray_mul-multiplied : (a b : ℕ) → multiplied a b < 2 ^ 160 → ray_mul a b ≡ some (multiplied a b)
ray_mul-multiplied a b h = ray_mul-fits a b (omega arith)

pub multiplied_mono : (a b c : ℕ) → b ≤ c → multiplied a b ≤ multiplied a c
multiplied_mono a b c h = let le : a * b ≤ a * c = mul-le-mul (omega arith) h in omega arith

percent_mul-fits :
    (a b : ℕ)
    → a * b + half_percentage ≤ max_word
    → percent_mul a b ≡ some ((half_percentage + a * b) / percentage_factor)
percent_mul-fits a b h = rw (percent_mul_agrees a b, percent_mul-pos a b) (ground arith)

ray_div-fits : (a b : ℕ) → ray ≤ b → b < 2 ^ 128 → a < 2 ^ 128 → ray_div a b ≡ some (divided a b)
ray_div-fits a b p q h =
    rw (ray_div_agrees a b (omega arith), ray_div-pos a b (omega arith)) (ground arith)

pub to_uint128-fits : (a : ℕ) → a < 2 ^ 128 → to_uint128 a ≡ some a
unfolding to_uint128
to_uint128-fits a h = ground arith

mint_to_treasury-fits :
    (accrued amount index : ℕ)
    → accrued < 2 ^ 127
    → amount < 2 ^ 126
    → ray ≤ index
    → index < 2 ^ 128
    → (q : ℕ) × (mint_to_treasury accrued amount index ≡ some q)
unfolding mint_to_treasury
mint_to_treasury-fits accrued amount index p q r s = elim (Bool-cases (amount == 0)) [
  | inl none_due ↦ (accrued, rw none_due refl)
  | inr due ↦
      let at_most = divided_anti amount ray index (omega arith) r in
      (
        accrued + divided amount index,
        rw
            (
              due,
              ray_div-fits amount index r s (omega arith),
              to_uint128-fits (divided amount index) (omega arith),
            )
            (to_uint128-fits (accrued + divided amount index) (omega arith)),
      )
]

pub compounded-fits :
    (rate last now : ℕ)
    → rate < 2 ^ 128
    → now < 2 ^ 40
    → last ≤ now
    → calculate_compounded_interest rate last now ≡ some (binomial_interest rate (now - last))
compounded-fits rate last now p q h =
    let (v, e, same) = calculate_compounded_interest_agrees rate last now p q h in
    let both : pos v ≡ pos (binomial_interest rate (now - last)) =
      sym same ∙ calc_compounded_interest-pos rate now last h in
    cc (e, both)

pub linear-fits :
    (rate last now : ℕ)
    → rate < 2 ^ 128
    → now < 2 ^ 40
    → last ≤ now
    → calculate_linear_interest rate last now ≡ some (rate * (now - last) / one_year + ray)
linear-fits rate last now p q h =
    let (v, e, same) = calculate_linear_interest_agrees rate last now p q h in
    let both : pos v ≡ pos (rate * (now - last) / one_year + ray) =
      sym same ∙ calc_linear_interest-pos rate now last h in
    cc (e, both)

-- The debts of a cache have grown, and stay far below a word.
pub record IsBounded (cache : ReserveCache) : Type 0 where
  pub rate_lt : cache.curr_avg_stable_borrow_rate < 2 ^ 128
  pub time_lt : cache.reserve_last_update_timestamp < 2 ^ 40
  pub stable_before : cache.stable_debt_last_update_timestamp ≤ cache.reserve_last_update_timestamp
  pub index_ge : ray ≤ cache.next_liquidity_index
  pub index_lt : cache.next_liquidity_index < 2 ^ 128
  pub borrow_index_le : cache.curr_variable_borrow_index ≤ cache.next_variable_borrow_index
  pub variable_lt :
      multiplied cache.curr_scaled_variable_debt cache.next_variable_borrow_index < 2 ^ 120
  pub stable_lt : cache.curr_total_stable_debt < 2 ^ 120
  pub stable_le :
      multiplied cache.curr_principal_stable_debt (
        binomial_interest cache.curr_avg_stable_borrow_rate
          (cache.reserve_last_update_timestamp - cache.stable_debt_last_update_timestamp))
      ≤ cache.curr_total_stable_debt
  pub factor_le : cache.reserve_factor ≤ percentage_factor

pub accrue_to_treasury-fits :
    (accrued : ℕ) (cache : ReserveCache)
    → accrued < 2 ^ 127
    → IsBounded cache
    → (q : ℕ) × (accrue_to_treasury accrued cache ≡ some q)
unfolding accrue_to_treasury
accrue_to_treasury-fits accrued cache room b = elim (Bool-cases (cache.reserve_factor == 0)) [
  | inl no_factor ↦ (accrued, rw no_factor refl)
  | inr some_factor ↦
      let scaled = cache.curr_scaled_variable_debt in
      let pv = multiplied scaled cache.curr_variable_borrow_index in
      let cv = multiplied scaled cache.next_variable_borrow_index in
      let interest =
        binomial_interest cache.curr_avg_stable_borrow_rate
          (cache.reserve_last_update_timestamp - cache.stable_debt_last_update_timestamp) in
      let ps = multiplied cache.curr_principal_stable_debt interest in
      let total = cache.curr_total_stable_debt in
      let rest = cv + total - pv - ps in
      let grown : pv ≤ cv =
        multiplied_mono scaled cache.curr_variable_borrow_index cache.next_variable_borrow_index
          b.borrow_index_le in
      let cv_lt : cv < 2 ^ 120 = b.variable_lt in
      let total_lt : total < 2 ^ 120 = b.stable_lt in
      let ps_le : ps ≤ total = b.stable_le in
      let rest_le : rest ≤ 2 ^ 121 = omega arith in
      let product : rest * cache.reserve_factor ≤ 2 ^ 121 * percentage_factor =
        mul-le-mul rest_le b.factor_le in
      let amount = (half_percentage + rest * cache.reserve_factor) / percentage_factor in
      let (q, mints) =
        mint_to_treasury-fits accrued amount cache.next_liquidity_index room (omega arith)
          b.index_ge b.index_lt in
      (
        q,
        rw
            (
              some_factor,
              ray_mul-multiplied scaled cache.curr_variable_borrow_index (omega arith),
              ray_mul-multiplied scaled cache.next_variable_borrow_index (omega arith),
              compounded-fits cache.curr_avg_stable_borrow_rate
                  cache.stable_debt_last_update_timestamp cache.reserve_last_update_timestamp
                  b.rate_lt b.time_lt b.stable_before,
              ray_mul-multiplied cache.curr_principal_stable_debt interest (omega arith),
              checked_add-fits cv total (omega arith),
              checked_sub-fits (cv + total) pv (omega arith),
              checked_sub-fits (cv + total - pv) ps (omega arith),
              percent_mul-fits rest cache.reserve_factor (omega arith),
            )
            mints,
      )
]
