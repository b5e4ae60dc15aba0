-- ===== src/Calculations/Rates/Usage.antt =====
-- Usage ratios of test-suites/helpers/utils/calculations.ts.
use rasa_lending_platform_sm.Prelude.{
  ℕ, ◌+◌, ◌≤◌, ◌<◌, ◌≡◌, arith, ◌==◌, if◌then◌else◌, inl, inr, Bool-cases,
}
use rasa_lending_platform_sm.Prelude.Int.{pos, +ℤ-pos, eqb_pos, leb_pos}
use rasa_lending_platform_sm.Prelude.Result.{ok}
use rasa_lending_platform_sm.WadRayMath.{ray, ray_div}
use rasa_lending_platform_sm.WadRayMath.Rounding.{ray_div-pos}
use rasa_lending_platform_sm.WadRayMath.Order.{divided, divided_anti, divided-le-ray}
use rasa_lending_platform_sm.Calculations.Rates.{calc_expected_usage_ratios}

-- The ratio that the code computes, from numbers that are not negative.
abbrev pub usage : ℕ → ℕ → ℕ
usage debt liquidity = if debt == 0 then 0 else divided debt (liquidity + debt)

-- Borrowing against more liquidity gives no larger ratio, and no ratio exceeds one ray.
pub usage_order : (debt a u : ℕ) → (usage debt (a + u) ≤ usage debt a) × (usage debt a ≤ ray)
usage_order debt a u = elim (Bool-cases (debt == 0)) [
  | inl e ↦ rw e (omega arith, omega arith)
  | inr e ↦
      let p : 0 < debt = ground arith in
      rw e (
        divided_anti debt (a + debt) (a + u + debt) (omega arith) (omega arith),
        divided-le-ray debt (a + debt) (omega arith) (omega arith),
      )
]

pub ratio-pos :
    (debt liquidity : ℕ)
    → (if debt == 0 then ok (pos 0) else ray_div (pos debt) (pos (liquidity + debt)))
      ≡ ok (pos (usage debt liquidity))
ratio-pos debt liquidity = elim (Bool-cases (debt == 0)) [
  | inl e ↦ rw e
  | inr e ↦ rw (e, ray_div-pos debt (liquidity + debt) (ground arith))
]

pub calc_expected_usage_ratios-pos :
    (s v a u : ℕ)
    → calc_expected_usage_ratios (pos s) (pos v) (pos a) (pos (a + u))
      ≡ ok (pos (usage (s + v) a), pos (usage (s + v) (a + u)))
unfolding calc_expected_usage_ratios
calc_expected_usage_ratios-pos s v a u =
    let (order, top) = usage_order (s + v) a u in
    rw (
      +ℤ-pos s v,
      +ℤ-pos a (s + v),
      +ℤ-pos (a + u) (s + v),
      eqb_pos (s + v),
      ratio-pos (s + v) a,
      ratio-pos (s + v) (a + u),
      leb_pos _ _ order,
    )

-- With no negative amount and a total that is at least what is available, the usage ratios are
-- computed without a throw, the assertion in them included; the supply ratio is at most the borrow
-- ratio, and that is at most one ray.
pub calc_expected_usage_ratios_order :
    (s v a u : ℕ)
    → (b w : ℕ) × (calc_expected_usage_ratios (pos s) (pos v) (pos a) (pos (a + u))
        ≡ ok (pos b, pos w))
      × (w ≤ b)
      × (b ≤ ray)
calc_expected_usage_ratios_order s v a u =
    let (order, top) = usage_order (s + v) a u in
    (usage (s + v) a, usage (s + v) (a + u), calc_expected_usage_ratios-pos s v a u, order, top)
