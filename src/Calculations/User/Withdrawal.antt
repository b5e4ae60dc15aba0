-- ===== src/Calculations/User/Withdrawal.antt =====
-- Deposit and full withdrawal of a user's position in test-suites/helpers/utils/calculations.ts.
use native.Mathlib.Nat.{le_refl}
use rasa_lending_platform_sm.Prelude.{
  ℕ, ◌+◌, ◌≤◌, ◌≡◌, refl, true, false, arith, ◌==◌, if◌then◌else◌, some, ap,
}
use rasa_lending_platform_sm.Prelude.Int.{pos, eqb_pos, +ℤ-pos, -ℤ-pos, ◌-ℤ◌}
use rasa_lending_platform_sm.Prelude.Result.{ok}
use rasa_lending_platform_sm.WadRayMath.{ray}
use rasa_lending_platform_sm.WadRayMath.Rounding.{ray_mul-pos}
use rasa_lending_platform_sm.WadRayMath.Order.{multiplied}
use rasa_lending_platform_sm.Calculations.Data.{ReserveData, UserReserveData, empty_user}
use rasa_lending_platform_sm.Calculations.Snapshot.{
  Reserve, Position, fetched_reserve, fetched_user,
}
use rasa_lending_platform_sm.Calculations.State.{calc_expected_rs_token_balance}
use rasa_lending_platform_sm.Calculations.Liquidity.{max_uint_amount}
use rasa_lending_platform_sm.Calculations.User.{calc_expected_user_data_after_withdraw}
use rasa_lending_platform_sm.Calculations.User.Balances.{
  income, debt_factor, index-le-income, rs_token_balance-fetched, variable_balance-fetched,
  stable_debt_at, stable_balance-fetched, scaled-all,
}

-- What a full withdrawal leaves: nothing in the reserve, no collateral (unless the position was
-- already empty, when the code switches it on), and the whole balance in the wallet.
pub record IsEmptied (p : Position) (balance : ℕ) (e : UserReserveData) : Type 0 where
  pub scaled_eq : e.scaled_rs_token_balance ≡ some (pos 0)
  pub current_eq : e.current_rs_token_balance ≡ some (pos 0)
  pub collateral_eq : e.usage_as_collateral_enabled ≡ some (p.balance == 0)
  pub wallet_eq : e.wallet_balance ≡ some (pos (p.wallet + balance))
  pub debt_eq : e.scaled_variable_debt ≡ some (pos p.scaled_debt)

-- The position that the code expects.
abbrev emptied : Reserve → Position → ReserveData → ℕ → ℕ → UserReserveData
emptied r p after t balance = record empty_user {
  scaled_rs_token_balance = some (pos 0);
  current_rs_token_balance = some (pos 0);
  principal_stable_debt = some (pos p.principal);
  scaled_variable_debt = some (pos p.scaled_debt);
  current_stable_debt = some (pos (stable_debt_at p t));
  current_variable_debt = some (pos (multiplied p.scaled_debt (debt_factor r t)));
  stable_borrow_rate = some (pos p.rate);
  stable_rate_last_updated = some (pos p.rate_updated);
  liquidity_rate = after.liquidity_rate;
  usage_as_collateral_enabled = some (p.balance == 0);
  wallet_balance = some (pos (p.wallet + balance));
}

switched : (n : ℕ) → (if n == 0 then some true else some false) ≡ some (n == 0)
switched n = ground arith

nothing_left : (n : ℕ) → pos n -ℤ pos n ≡ pos 0
nothing_left n = rw (-ℤ-pos n n (le_refl n)) (ap pos (omega arith))

-- By the time of the transaction the reserve was updated and the position's stable rate was set. Then
-- a withdrawal of the largest amount, from a reserve whose index after the action is its normalized
-- income and at least one ray, pays out the balance of the moment and empties the position; if it was
-- not empty it ceases to be collateral.
pub withdraw_empties :
    (r : Reserve) (p : Position) (after : ReserveData) (t : ℕ)
    → r.updated ≤ t
    → p.rate_updated ≤ t
    → ray ≤ r.index
    → after.liquidity_index ≡ some (pos (income r t))
    → (balance : ℕ) × (e : UserReserveData) × (calc_expected_rs_token_balance
          (fetched_reserve r)
          (fetched_user p)
          (pos t)
        ≡ ok (pos balance))
      × (calc_expected_user_data_after_withdraw
            (pos max_uint_amount)
            (fetched_reserve r)
            after
            (fetched_user p)
            (pos t)
          ≡ ok e)
      × IsEmptied p balance e
unfolding calc_expected_user_data_after_withdraw
withdraw_empties r p after t h k low same =
    let balance : ℕ = multiplied p.scaled (income r t) in
    let all = scaled-all p (income r t) (omega (arith, index-le-income r t)) in
    let paid = ray_mul-pos p.scaled (income r t) in
    (
      balance,
      emptied r p after t balance,
      rw (rs_token_balance-fetched r p t h) (ap ok paid),
      rw
          (
            rs_token_balance-fetched r p t h,
            same,
            all,
            stable_balance-fetched p t k,
            variable_balance-fetched r p t h,
          )
          (rw
            (
              paid,
              ray_mul-pos p.scaled_debt (debt_factor r t),
              nothing_left balance,
              +ℤ-pos p.wallet balance,
            )
            (rw (eqb_pos p.balance, switched p.balance))),
      record {
        scaled_eq = refl;
        current_eq = refl;
        collateral_eq = refl;
        wallet_eq = refl;
        debt_eq = refl;
      },
    )
