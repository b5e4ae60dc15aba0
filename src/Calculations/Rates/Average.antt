-- ===== src/Calculations/Rates/Average.antt =====
-- Average rates of test-suites/helpers/utils/calculations.ts.
use native.Mathlib.Nat.{le_refl}
use rasa_lending_platform_sm.Prelude.{
  ℕ, ◌+◌, ◌*◌, ◌/◌, ◌≤◌, ◌<◌, ◌≡◌, refl, arith, ◌==◌, if◌then◌else◌, inl, inr, Bool-cases,
  mul-le-mul,
}
use rasa_lending_platform_sm.Prelude.Int.{pos, +ℤ-pos, *ℤ-pos, pos_laws}
use rasa_lending_platform_sm.Prelude.Result.{ok}
use rasa_lending_platform_sm.WadRayMath.{wad_ray_ratio}
use rasa_lending_platform_sm.WadRayMath.Rounding.{
  ray_mul-pos, ray_div-pos, quotient-pos, wad_to_ray-pos,
}
use rasa_lending_platform_sm.WadRayMath.Order.{divided, multiplied}
use rasa_lending_platform_sm.Calculations.Rates.{
  calc_expected_average_stable_borrow_rate, calc_expected_overall_borrow_rate,
  calc_expected_user_stable_rate,
}

pub average-pos :
    (average total amount rate : ℕ)
    → 0 < total + amount
    → calc_expected_average_stable_borrow_rate (pos average) (pos total) (pos amount) (pos rate)
      ≡ ok (pos ((average * total + rate * amount) / (total + amount)))
unfolding calc_expected_average_stable_borrow_rate
average-pos average total amount rate p =
    rw
      (
        +ℤ-pos total amount,
        *ℤ-pos average total,
        *ℤ-pos rate amount,
        +ℤ-pos (average * total) (rate * amount),
        quotient-pos (average * total + rate * amount) (total + amount) p,
      )
      (ground arith)

within : (lo hi n d : ℕ) → 0 < d → lo * d ≤ n → n ≤ hi * d → (lo ≤ n / d) × (n / d ≤ hi)
within lo hi n d p h k = (grind arith, grind arith)

weigh :
    (lo hi a b m n : ℕ)
    → lo ≤ a
    → lo ≤ b
    → a ≤ hi
    → b ≤ hi
    → (lo * (m + n) ≤ a * m + b * n) × (a * m + b * n ≤ hi * (m + n))
weigh lo hi a b m n p q r s = omega (
  arith,
  mul-le-mul p (le_refl m),
  mul-le-mul q (le_refl n),
  mul-le-mul r (le_refl m),
  mul-le-mul s (le_refl n),
)

-- With no negative amount or rate, new stable debt at a rate moves the average stable rate to a value that lies in every range that
-- holds both the old average and that rate; with no debt at all the average is zero.
pub calc_expected_average_stable_borrow_rate_within :
    (lo hi average total amount rate : ℕ)
    → lo ≤ average
    → lo ≤ rate
    → average ≤ hi
    → rate ≤ hi
    → (q : ℕ) × (calc_expected_average_stable_borrow_rate
          (pos average)
          (pos total)
          (pos amount)
          (pos rate)
        ≡ ok (pos q))
      × (if total + amount == 0 then q ≡ 0 else (lo ≤ q) × (q ≤ hi))
unfolding calc_expected_average_stable_borrow_rate
calc_expected_average_stable_borrow_rate_within lo hi average total amount rate p q r s =
    elim (Bool-cases (total + amount == 0)) [
      | inl e ↦ (0, rw +ℤ-pos (ground arith), rw e refl)
      | inr e ↦
          let some_debt : 0 < total + amount = ground arith in
          let (low, high) = weigh lo hi average rate total amount p q r s in
          (
            (average * total + rate * amount) / (total + amount),
            average-pos average total amount rate some_debt,
            rw e (
                within lo hi (average * total + rate * amount) (total + amount) some_debt low high),
          )
    ]

pub user_rate-pos :
    (balance before amount new : ℕ)
    → 0 < balance + amount
    → calc_expected_user_stable_rate (pos balance) (pos before) (pos amount) (pos new)
      ≡ ok (pos ((balance * before + amount * new) / (balance + amount)))
unfolding calc_expected_user_stable_rate
user_rate-pos balance before amount new p =
    simp pos_laws (quotient-pos (balance * before + amount * new) (balance + amount) p)

-- The overall rate, at numbers that are not negative.
abbrev pub overall : ℕ → ℕ → ℕ → ℕ → ℕ
overall s v variable_rate stable_rate =
    if s + v == 0
    then 0
    else divided
        (multiplied (v * wad_ray_ratio) variable_rate + multiplied (s * wad_ray_ratio) stable_rate)
        ((s + v) * wad_ray_ratio)

pub calc_expected_overall_borrow_rate-pos :
    (s v variable_rate stable_rate : ℕ)
    → calc_expected_overall_borrow_rate (pos s) (pos v) (pos variable_rate) (pos stable_rate)
      ≡ ok (pos (overall s v variable_rate stable_rate))
unfolding calc_expected_overall_borrow_rate
calc_expected_overall_borrow_rate-pos s v variable_rate stable_rate =
    elim (Bool-cases (s + v == 0)) [
      | inl e ↦ rw (+ℤ-pos s v) (ground arith)
      | inr e ↦
          simp (+ℤ-pos, wad_to_ray-pos, ray_mul-pos, e)
            (rw
              (ray_div-pos
                (multiplied (v * wad_ray_ratio) variable_rate
                  + multiplied (s * wad_ray_ratio) stable_rate)
                ((s + v) * wad_ray_ratio) (ground arith))
              (ground arith))
    ]
