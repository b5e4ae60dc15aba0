-- ===== src/Events/Tokens/Accounting.antt =====
-- The tokens that the events of test-suites/helpers/utils/tokenization-events.ts create are what the balance
-- of the account gains, up to rounding.
use text.Mathlib.Text.{◌==◌ as str_eq}
use rasa_lending_platform_sm.Prelude.{ℕ, ◌+◌, ◌*◌, ◌/◌, ◌<◌, ◌≤◌, ◌≡◌, false, String, arith}
use rasa_lending_platform_sm.Prelude.Int.{ℤ, pos, ◌+ℤ◌, ◌-ℤ◌, ◌≤ℤ◌, int_laws}
use rasa_lending_platform_sm.Prelude.Result.{ok}
use rasa_lending_platform_sm.WadRayMath.{ray, ray_mul, ray_div}
use rasa_lending_platform_sm.WadRayMath.Rounding.{ray_mul_nearest, ray_div_nearest}
use rasa_lending_platform_sm.Setup.{zero_address}
use rasa_lending_platform_sm.Events.Tokens.{get_balance_increase}
use rasa_lending_platform_sm.Events.Tokens.Scaled.{supply_events, withdraw_events}
use rasa_lending_platform_sm.Events.Tokens.Balance.{supply-Balances, withdraw-Balances}
use rasa_lending_platform_sm.Events.Tokens.Changes.{created}

-- A scaled amount, rounded both ways, is worth the amount up to one unit.
scaled_value :
    (amount index rest added : ℕ)
    → 0 < index
    → index < 2 * ray
    → ray_div (pos amount) (pos index) ≡ ok (pos added)
    → (q : ℕ) × (r : ℕ) × (ray_mul (pos (rest + added)) (pos index) ≡ pos q)
      × (ray_mul (pos rest) (pos index) ≡ pos r)
      × (q ≤ r + amount + 1)
      × (r + amount ≤ q + 1)
scaled_value amount index rest added positive small divided =
    let (q, eq, above, below) = ray_mul_nearest (rest + added) index in
    let (r, er, above', below') = ray_mul_nearest rest index in
    let (d, ed, over, under) = ray_div_nearest amount index positive in
    let same : d ≡ added = cc in
    let whole : (rest + added) * index ≡ rest * index + added * index = grind arith in
    let over' : added * index ≤ amount * ray + index / 2 = rw (← same) over in
    let under' : amount * ray + index / 2 < added * index + index = rw (← same) under in
    (q, r, eq, er, omega arith, omega arith)

-- Two numbers that differ by one unit at most.
abbrev pub IsWithinOne : ℤ → ℤ → Type 0
IsWithinOne a b = (a ≤ℤ b +ℤ pos 1) × (b ≤ℤ a +ℤ pos 1)

scaled_before : (rest added : ℕ) → pos (rest + added) -ℤ pos added ≡ pos rest
scaled_before rest added = grind int_laws

scaled_after : (rest added : ℕ) → pos rest +ℤ pos added ≡ pos (rest + added)
scaled_after rest added = grind int_laws

-- At an index below two rays, where the scaled amount is the amount divided by the index: the tokens that
-- the events of a supply create, which add it to the scaled balance, and those that the events of a
-- withdrawal by an account other than the zero address destroy, which take it from the scaled balance, are
-- what the balance gains or loses from the previous index to the new one, up to one unit.
pub created-balance :
    (user holder receiver underlying token : String) (amount index previous rest added : ℕ)
    → 0 < index
    → index < 2 * ray
    → ray_div (pos amount) (pos index) ≡ ok (pos added)
    → str_eq holder zero_address ≡ false
    → IsWithinOne (ray_mul (pos (rest + added)) (pos index)) (
        ray_mul (pos rest) (pos previous)
        +ℤ created (
            supply_events user holder underlying token
              (pos amount)
              (get_balance_increase (pos (rest + added) -ℤ pos added) (pos previous) (pos index))
              (pos index)))
      × IsWithinOne (ray_mul (pos rest) (pos index)) (
          ray_mul (pos (rest + added)) (pos previous)
          +ℤ created (
              withdraw_events holder receiver underlying token
                (pos amount)
                (get_balance_increase (pos rest +ℤ pos added) (pos previous) (pos index))
                (pos index)))
unfolding get_balance_increase
created-balance user holder receiver underlying token amount index previous rest added positive
      small divided is_holder =
    let (q, r, eq, er, above, below) =
      scaled_value amount index rest added positive small divided in
    let minted_at =
      λ (n : ℤ). (supply-Balances user holder underlying token (pos amount) n (pos index)).0 in
    let burned_at = λ (n : ℤ).
      (withdraw-Balances holder receiver underlying token (pos amount) n (pos index) is_holder).0 in
    rw (scaled_before rest added, scaled_after rest added, minted_at _, burned_at _, eq, er)
      ((grind int_laws, grind int_laws), (grind int_laws, grind int_laws))
