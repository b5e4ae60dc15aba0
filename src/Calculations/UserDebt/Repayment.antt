-- ===== src/Calculations/UserDebt/Repayment.antt =====
-- Full repayment of a user's debt in test-suites/helpers/utils/calculations.ts.
use text.Mathlib.Text.{◌==◌ as str_eq}
use native.Mathlib.Nat.{le_refl}
use rasa_lending_platform_sm.Prelude.{
  ℕ, ◌≤◌, ◌≡◌, refl, ◌∙◌, arith, String, some, ap, if◌then◌else◌,
}
use rasa_lending_platform_sm.Prelude.Int.{pos, -ℤ-pos, ◌-ℤ◌}
use rasa_lending_platform_sm.Prelude.Result.{ok}
use rasa_lending_platform_sm.Types.{RateMode}
use rasa_lending_platform_sm.WadRayMath.{ray, ray_mul}
use rasa_lending_platform_sm.WadRayMath.Rounding.{ray_mul-pos}
use rasa_lending_platform_sm.WadRayMath.RoundTrip.{ray_div-ray_mul}
use rasa_lending_platform_sm.Calculations.Data.{ReserveData, UserReserveData, empty_user}
use rasa_lending_platform_sm.Calculations.Snapshot.{
  Reserve, Position, fetched_reserve, fetched_user,
}
use rasa_lending_platform_sm.Calculations.Liquidity.{max_uint_amount}
use rasa_lending_platform_sm.Calculations.Debt.{is_stable, amount_to_repay}
use rasa_lending_platform_sm.Calculations.User.Balances.{
  income, debt_factor, index-le-income, rs_token_balance-fetched, variable_balance-fetched,
  stable_debt_at, stable_balance-fetched,
}
use rasa_lending_platform_sm.Calculations.UserDebt.{
  user_repay_stable, user_repay_variable, calc_expected_user_data_after_repay,
}

nothing_left : (n : ℕ) → pos n -ℤ pos n ≡ pos 0
nothing_left n = rw (-ℤ-pos n n (le_refl n)) (ap pos (omega arith))

nothing_grows : (f : ℕ) → ray_mul (pos 0) (pos f) ≡ pos 0
nothing_grows f = rw (ray_mul-pos 0 f) (ap pos (omega arith))

-- No debt of the mode is left: no stable principal, rate or date, or no scaled and no actual variable
-- debt.
abbrev pub IsCleared : RateMode → UserReserveData → Type 0
IsCleared mode e =
    if is_stable mode
    then (e.principal_stable_debt ≡ some (pos 0))
      × (e.current_stable_debt ≡ some (pos 0))
      × (e.stable_borrow_rate ≡ some (pos 0))
      × (e.stable_rate_last_updated ≡ some (pos 0))
    else (e.scaled_variable_debt ≡ some (pos 0)) × (e.current_variable_debt ≡ some (pos 0))

-- The position after a full repayment of the variable debt.
abbrev paid_off : Position → ℕ → UserReserveData
paid_off p s = record empty_user {
  current_stable_debt = some (pos p.principal);
  principal_stable_debt = some (pos s);
  stable_borrow_rate = some (pos p.rate);
  stable_rate_last_updated = some (pos p.rate_updated);
  scaled_variable_debt = some (pos 0);
  current_variable_debt = some (pos 0);
}

pays_off :
    (p : Position) (after : ReserveData) (s f : ℕ)
    → ray ≤ f
    → after.variable_borrow_index ≡ some (pos f)
    → user_repay_variable (ray_mul (pos p.scaled_debt) (pos f)) (pos s) after (fetched_user p)
      ≡ ok (paid_off p s)
unfolding user_repay_variable
pays_off p after s f h e =
    rw (e, ray_div-ray_mul p.scaled_debt f h, nothing_left p.scaled_debt) (rw (nothing_grows f))

-- What is settled before the common fields are written.
repay_settles :
    (mode : RateMode) (p : Position) (after : ReserveData) (s f tx : ℕ)
    → ray ≤ f
    → after.variable_borrow_index ≡ some (pos f)
    → let variable = ray_mul (pos p.scaled_debt) (pos f) in
      let repaid = amount_to_repay (pos max_uint_amount) mode (pos s) variable in
      (x : UserReserveData) × ((if is_stable mode
          then ok (user_repay_stable repaid (pos s) variable (fetched_user p) (pos tx))
          else user_repay_variable repaid (pos s) after (fetched_user p))
        ≡ ok x)
      × IsCleared mode x
unfolding amount_to_repay user_repay_stable
repay_settles RateMode.stable p after s f tx h e =
    (_, refl, (rw (nothing_left s), rw (nothing_left s), rw (nothing_left s), rw (nothing_left s)))
repay_settles RateMode.none p after s f tx h e =
    (paid_off p s, pays_off p after s f h e, (refl, refl))
repay_settles RateMode.variable p after s f tx h e =
    (paid_off p s, pays_off p after s f h e, (refl, refl))

-- The fields that the code writes at the end do not touch the debt of the mode.
IsCleared-after :
    (mode : RateMode) (x : UserReserveData) (e : UserReserveData)
    → e.principal_stable_debt ≡ x.principal_stable_debt
    → e.current_stable_debt ≡ x.current_stable_debt
    → e.stable_borrow_rate ≡ x.stable_borrow_rate
    → e.stable_rate_last_updated ≡ x.stable_rate_last_updated
    → e.scaled_variable_debt ≡ x.scaled_variable_debt
    → e.current_variable_debt ≡ x.current_variable_debt
    → IsCleared mode x
    → IsCleared mode e
IsCleared-after RateMode.stable x e a b c d f g (h, i, j, k) = (a ∙ h, b ∙ i, c ∙ j, d ∙ k)
IsCleared-after RateMode.none x e a b c d f g (h, i) = (f ∙ h, g ∙ i)
IsCleared-after RateMode.variable x e a b c d f g (h, i) = (f ∙ h, g ∙ i)

-- A repayment of the largest amount does not throw and leaves no debt of the repaid mode. The reserve
-- was updated by the transaction, which is no later than the prediction; the position's stable rate was
-- set by the prediction; the reserve's debt index is at least one ray, and the index after the action is
-- that index grown until the prediction.
pub repay_clears :
    (mode : RateMode) (r : Reserve) (p : Position) (after : ReserveData)
    (payer on_behalf_of : String) (tx now : ℕ)
    → r.updated ≤ tx
    → tx ≤ now
    → p.rate_updated ≤ now
    → ray ≤ r.debt_index
    → after.variable_borrow_index ≡ some (pos (debt_factor r now))
    → (e : UserReserveData) × (calc_expected_user_data_after_repay
          (pos max_uint_amount)
          mode
          (fetched_reserve r)
          after
          (fetched_user p)
          payer
          on_behalf_of
          (pos tx)
          (pos now)
        ≡ ok e)
      × IsCleared mode e
unfolding calc_expected_user_data_after_repay
repay_clears mode r p after payer on_behalf_of tx now h k l low same =
    let settled =
      repay_settles mode p after (stable_debt_at p now) (debt_factor r now) tx
        (omega (arith, index-le-income r now)) same in
    let e : UserReserveData = record (settled.0) {
      liquidity_rate = after.liquidity_rate;
      usage_as_collateral_enabled = (fetched_user p).usage_as_collateral_enabled;
      current_rs_token_balance = some (ray_mul (pos p.scaled) (pos (income r tx)));
      scaled_rs_token_balance = some (pos p.scaled);
      wallet_balance = some (
          if str_eq payer on_behalf_of
          then pos p.wallet
            -ℤ amount_to_repay (pos max_uint_amount) mode (pos (stable_debt_at p now))
                (ray_mul (pos p.scaled_debt) (pos (debt_factor r now)))
          else pos p.wallet);
    } in
    (
      e,
      rw
          (
            variable_balance-fetched r p now (omega arith),
            stable_balance-fetched p now l,
            settled.1,
            rs_token_balance-fetched r p tx h,
          )
          refl,
      IsCleared-after mode settled.0 e refl refl refl refl refl refl settled.2,
    )
