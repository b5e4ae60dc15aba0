-- ===== src/Calculations/State/Accrual.antt =====
-- `updateState` of test-suites/helpers/utils/calculations.ts on a fetched reserve.
use rasa_lending_platform_sm.Prelude.{
  ℕ, ◌+◌, ◌-◌, ◌*◌, ◌/◌, ◌≤◌, ◌<◌, ◌≡◌, refl, true, arith, ◌==◌, if◌then◌else◌, inl, inr,
  Bool-cases, some,
}
use rasa_lending_platform_sm.Prelude.Int.{ℤ, pos, negsuc, +ℤ-pos, ◌+ℤ◌, eqb_pos, ltb_ℤ}
use rasa_lending_platform_sm.Prelude.Result.{ok, ◌>>=◌}
use rasa_lending_platform_sm.WadRayMath.{ray, ray_div}
use rasa_lending_platform_sm.WadRayMath.Rounding.{ray_mul-pos, ray_div-pos}
use rasa_lending_platform_sm.WadRayMath.Order.{divided, multiplied}
use rasa_lending_platform_sm.Calculations.Data.{ReserveData}
use rasa_lending_platform_sm.Calculations.Snapshot.{Reserve, fetched_reserve}
use rasa_lending_platform_sm.Calculations.Interest.{one_year, calc_expected_total_stable_debt}
use rasa_lending_platform_sm.Calculations.Interest.Closed.{
  binomial_interest, calc_linear_interest-pos, calc_compounded_interest-pos,
}
use rasa_lending_platform_sm.Calculations.Interest.Growth.{grow, ray-le-binomial_interest}
use rasa_lending_platform_sm.Calculations.State.{
  calc_expected_liquidity_index, calc_expected_variable_borrow_index,
  calc_expected_total_variable_debt, total_debt_accrued, calc_expected_accrue_to_treasury,
  update_state,
}

-- The reserve was updated by the time `t`, its stable debt no later than itself, and its indexes are
-- at least one ray.
pub record IsCurrent (r : Reserve) (t : ℕ) : Type 0 where
  pub updated_le : r.updated ≤ t
  pub stable_updated_le : r.stable_updated ≤ r.updated
  pub index_ge : ray ≤ r.index
  pub debt_index_ge : ray ≤ r.debt_index

abbrev pub next_index : Reserve → ℕ → ℕ
next_index r t =
    if r.supply_ratio == 0
    then r.index
    else multiplied (r.income_rate * (t - r.updated) / one_year + ray) r.index

abbrev pub next_debt_index : Reserve → ℕ → ℕ
next_debt_index r t =
    if r.variable == 0
    then r.debt_index
    else multiplied (binomial_interest r.variable_rate (t - r.updated)) r.debt_index

abbrev pub next_stable : Reserve → ℕ → ℕ
next_stable r t = multiplied (binomial_interest r.average_rate (t - r.stable_updated)) r.principal

abbrev pub next_variable : Reserve → ℕ → ℕ
next_variable r t = multiplied r.scaled (next_debt_index r t)

-- The reserve with new indexes and debts, and then with `q` accrued to the treasury.
abbrev pub indexed_on : ReserveData → Reserve → ℕ → ReserveData
indexed_on expected r t = record expected {
  liquidity_index = some (pos (next_index r t));
  variable_borrow_index = some (pos (next_debt_index r t));
  total_stable_debt = some (pos (next_stable r t));
  total_variable_debt = some (pos (next_variable r t));
  scaled_variable_debt = some (pos r.scaled);
  principal_stable_debt = some (pos r.principal);
}

abbrev pub accrued_on : ReserveData → Reserve → ℕ → ℕ → ReserveData
accrued_on expected r t q = record (indexed_on expected r t) {
  accrued_to_treasury_scaled = some (pos q);
}

-- The indexes do not fall, and neither does the stable debt.
pub indexes_grow :
    (r : Reserve) (t : ℕ)
    → IsCurrent r t
    → (r.index ≤ next_index r t)
      × (r.debt_index ≤ next_debt_index r t)
      × (r.principal ≤ next_stable r t)
indexes_grow r t c = (
  ground (arith, grow (r.income_rate * (t - r.updated) / one_year + ray) r.index (omega arith)),
  ground (
    arith,
    grow (binomial_interest r.variable_rate (t - r.updated)) r.debt_index
        (ray-le-binomial_interest _ _),
  ),
  grow (binomial_interest r.average_rate (t - r.stable_updated)) r.principal
      (ray-le-binomial_interest _ _),
)

pub liquidity_index-fetched :
    (r : Reserve) (t : ℕ)
    → r.updated ≤ t
    → calc_expected_liquidity_index (fetched_reserve r) (pos t) ≡ ok (pos (next_index r t))
unfolding calc_expected_liquidity_index
liquidity_index-fetched r t h =
    rw (calc_linear_interest-pos r.income_rate t r.updated h)
      (rw (ray_mul-pos (r.income_rate * (t - r.updated) / one_year + ray) r.index) (ground arith))

pub debt_index-fetched :
    (r : Reserve) (t : ℕ)
    → r.updated ≤ t
    → calc_expected_variable_borrow_index (fetched_reserve r) (pos t)
      ≡ ok (pos (next_debt_index r t))
unfolding calc_expected_variable_borrow_index
debt_index-fetched r t h = rw (calc_compounded_interest-pos r.variable_rate t r.updated h) (
    rw (ray_mul-pos (binomial_interest r.variable_rate (t - r.updated)) r.debt_index)
      (ground arith))

pub total_stable-fetched :
    (r : Reserve) (t : ℕ)
    → r.stable_updated ≤ t
    → calc_expected_total_stable_debt
        (pos r.principal)
        (pos r.average_rate)
        (pos r.stable_updated)
        (pos t)
      ≡ pos (next_stable r t)
unfolding calc_expected_total_stable_debt
total_stable-fetched r t h =
    rw (calc_compounded_interest-pos r.average_rate t r.stable_updated h)
      (ray_mul-pos (binomial_interest r.average_rate (t - r.stable_updated)) r.principal)

positive : (z : ℤ) → ltb_ℤ (pos 0) z ≡ true → (n : ℕ) × (z ≡ pos n)
positive (pos n) h = (n, refl)
positive (negsuc n) h = absurd (ground arith)

-- What the treasury gets, whatever the accrued debt `z` is.
mint :
    (z : ℤ) (accrued index : ℕ)
    → 0 < index
    → (q : ℕ) × ((if ltb_ℤ (pos 0) z
          then (ray_div z (pos index) >>= λ minted. ok (pos accrued +ℤ minted))
          else ok (pos accrued))
        ≡ ok (pos q))
      × (accrued ≤ q)
mint z accrued index p = elim (Bool-cases (ltb_ℤ (pos 0) z)) [
  | inl e ↦
      let (n, n_eq) = positive z e in
      (
        accrued + divided n index,
        rw e (rw (n_eq, ray_div-pos n index p) (rw (+ℤ-pos accrued (divided n index)))),
        omega arith,
      )
  | inr e ↦ (accrued, rw e, omega arith)
]

accrue-fetched :
    (expected : ReserveData) (r : Reserve) (t : ℕ)
    → 0 < next_index r t
    → (q : ℕ) × (calc_expected_accrue_to_treasury (fetched_reserve r) (indexed_on expected r t)
        ≡ ok (pos q))
      × (r.accrued ≤ q)
unfolding calc_expected_accrue_to_treasury total_debt_accrued
accrue-fetched expected r t p = elim (Bool-cases (r.reserve_factor == 0)) [
  | inl e ↦ (r.accrued, rw (eqb_pos r.reserve_factor, e), omega arith)
  | inr e ↦ rw (eqb_pos r.reserve_factor, e) (mint _ r.accrued (next_index r t) p)
]

-- On a fetched reserve that is current, `updateState` does not throw: it sets the grown indexes and
-- debts and leaves the treasury with at least what it had.
pub update_state-fetched :
    (expected : ReserveData) (r : Reserve) (t : ℕ)
    → IsCurrent r t
    → (q : ℕ) × (update_state (fetched_reserve r) expected (pos t) ≡ ok (accrued_on expected r t q))
      × (r.accrued ≤ q)
unfolding update_state calc_expected_total_variable_debt
update_state-fetched expected r t c =
    let (index_le, _, _) = indexes_grow r t c in
    let (q, accrue, le) = accrue-fetched expected r t (omega (arith, c.index_ge)) in
    (
      q,
      rw (
        liquidity_index-fetched r t c.updated_le,
        debt_index-fetched r t c.updated_le,
        total_stable-fetched r t (omega (arith, c.updated_le, c.stable_updated_le)),
        ray_mul-pos r.scaled (next_debt_index r t),
        accrue,
      ),
      le,
    )
