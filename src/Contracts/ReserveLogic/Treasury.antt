-- ===== src/Contracts/ReserveLogic/Treasury.antt =====
-- What accrues to the treasury in test-suites/helpers/utils/calculations.ts against
-- contracts/protocol/libraries/logic/ReserveLogic.sol.
use rasa_lending_platform_sm.Prelude.{
  ℕ, ◌+◌, ◌-◌, ◌^◌, ◌≤◌, ◌<◌, ◌≡◌, refl, sym, ◌∙◌, ap, Bool, true, false, some, arith, ltb, ◌==◌,
  if◌then◌else◌,
}
use rasa_lending_platform_sm.Prelude.Int.{
  ℤ, pos, ◌+ℤ◌, ◌-ℤ◌, eqb_ℤ, ltb_ℤ, +ℤ-pos, -ℤ-pos, eqb_pos, ltb_pos,
}
use rasa_lending_platform_sm.Prelude.Result
use rasa_lending_platform_sm.Prelude.Result.{Result, ok}
use rasa_lending_platform_sm.WadRayMath
use rasa_lending_platform_sm.Calculations.Interest.{calc_compounded_interest}
use rasa_lending_platform_sm.Contracts.WadRayMath.{word, ray_mul, ray_div, percent_mul}
use rasa_lending_platform_sm.Contracts.MathUtils.{
  checked_add, checked_sub, calculate_compounded_interest, ◌>>=◌,
}
use rasa_lending_platform_sm.Contracts.InterestRates.Calls.{
  >>=-eq-some, ray_mul-eq-some, ray_div-eq-some, percent_mul-eq-some, checked_add-eq-some,
  checked_sub-eq-some,
}
use rasa_lending_platform_sm.Contracts.InterestRates.Ratios.{some_path}
use rasa_lending_platform_sm.Contracts.ReserveLogic.{
  ReserveCache, to_uint128, mint_to_treasury, accrue_to_treasury,
}
use rasa_lending_platform_sm.Contracts.MathUtils.Agreement.{calculate_compounded_interest_agrees}

pub to_uint128-eq-some : (a b : ℕ) → to_uint128 a ≡ some b → (a ≡ b) × (b < 2 ^ 128)
unfolding to_uint128
to_uint128-eq-some a b h = (ground arith, ground arith)

-- What the tests add to the treasury for an amount.
abbrev pub expected_mint : ℕ → ℤ → ℕ → Result ℤ
expected_mint accrued amount index =
    if ltb_ℤ (pos 0) amount
    then Result.◌>>=◌ (WadRayMath.ray_div amount (pos index)) (λ minted. ok (pos accrued +ℤ minted))
    else ok (pos accrued)

mint_to_treasury-eq-some :
    (accrued amount index q : ℕ)
    → index < word
    → mint_to_treasury accrued amount index ≡ some q
    → expected_mint accrued (pos amount) index ≡ ok (pos q)
unfolding mint_to_treasury
mint_to_treasury-eq-some accrued amount index q fits h = by_amount (amount == 0) refl h
  where
    by_amount :
        (b : Bool)
        → (amount == 0) ≡ b
        → (if b then some accrued else (do
          scaled ← ray_div amount index
          minted ← to_uint128 scaled
          to_uint128 (accrued + minted)))
          ≡ some q
        → expected_mint accrued (pos amount) index ≡ ok (pos q)
    by_amount true e h =
        let none_due : ltb 0 amount ≡ false = ground arith in
        rw (ltb_pos 0 amount, none_due) (ap (λ n. ok (pos n)) (some_path h))
    by_amount false e h =
        let due : ltb 0 amount ≡ true = ground arith in
        let (scaled, e1, h1) = >>=-eq-some (ray_div amount index) _ h in
        let (minted, e2, h2) = >>=-eq-some (to_uint128 scaled) _ h1 in
        let (same, _) = to_uint128-eq-some scaled minted e2 in
        let (sum, _) = to_uint128-eq-some (accrued + minted) q h2 in
        rw
          (
            ltb_pos 0 amount,
            due,
            ray_div-eq-some amount index scaled fits e1,
            +ℤ-pos accrued scaled,
          )
          (ap (λ n. ok (pos n)) (omega arith))

-- The debt that the tests take to have accrued, on the numbers of a cache.
abbrev pub expected_debt_accrued : ReserveCache → ℤ
expected_debt_accrued cache =
    WadRayMath.ray_mul (pos cache.curr_scaled_variable_debt) (pos cache.next_variable_borrow_index)
    +ℤ pos cache.curr_total_stable_debt
    -ℤ WadRayMath.ray_mul (pos cache.curr_scaled_variable_debt)
        (pos cache.curr_variable_borrow_index)
    -ℤ WadRayMath.ray_mul (pos cache.curr_principal_stable_debt) (
        calc_compounded_interest (pos cache.curr_avg_stable_borrow_rate)
          (pos cache.reserve_last_update_timestamp) (pos cache.stable_debt_last_update_timestamp))

abbrev pub expected_treasury : ReserveCache → ℕ → Result ℤ
expected_treasury cache accrued =
    if eqb_ℤ (pos cache.reserve_factor) (pos 0)
    then ok (pos accrued)
    else expected_mint accrued
        (WadRayMath.percent_mul (expected_debt_accrued cache) (pos cache.reserve_factor))
        cache.next_liquidity_index

-- Four amounts, of which the last two are less than the sum of the first two.
net :
    (a b c d sum less rest : ℕ)
    → a + b ≡ sum
    → c ≤ sum
    → sum - c ≡ less
    → d ≤ less
    → less - d ≡ rest
    → pos a +ℤ pos b -ℤ pos c -ℤ pos d ≡ pos rest
net a b c d sum less rest p q r s t =
    rw (+ℤ-pos a b, p, -ℤ-pos sum c q, r, -ℤ-pos less d s) (ap pos t)

-- The stable debt at the last update of the reserve.
pub previous_stable-eq-some :
    (principal rate last now interest n : ℕ)
    → rate < 2 ^ 128
    → now < 2 ^ 40
    → last ≤ now
    → calculate_compounded_interest rate last now ≡ some interest
    → ray_mul principal interest ≡ some n
    → WadRayMath.ray_mul (pos principal) (calc_compounded_interest (pos rate) (pos now) (pos last))
      ≡ pos n
previous_stable-eq-some principal rate last now interest n p q le e h =
    let (v, agrees, same) = calculate_compounded_interest_agrees rate last now p q le in
    let at : interest ≡ v = some_path (sym e ∙ agrees) in
    ap (WadRayMath.ray_mul (pos principal)) (same ∙ ap pos (sym at))
    ∙ ray_mul-eq-some principal interest n h

pub accrue_to_treasury-eq-some :
    (accrued : ℕ) (cache : ReserveCache) (q : ℕ)
    → cache.curr_avg_stable_borrow_rate < 2 ^ 128
    → cache.reserve_last_update_timestamp < 2 ^ 40
    → cache.stable_debt_last_update_timestamp ≤ cache.reserve_last_update_timestamp
    → cache.next_liquidity_index < word
    → accrue_to_treasury accrued cache ≡ some q
    → expected_treasury cache accrued ≡ ok (pos q)
unfolding accrue_to_treasury
accrue_to_treasury-eq-some accrued cache q rate_fits time_fits le fits h =
    by_factor (cache.reserve_factor == 0) refl h
  where
    by_factor :
        (b : Bool)
        → (cache.reserve_factor == 0) ≡ b
        → (if b then some accrued else (do
          prev_variable ← ray_mul cache.curr_scaled_variable_debt cache.curr_variable_borrow_index
          curr_variable ← ray_mul cache.curr_scaled_variable_debt cache.next_variable_borrow_index
          interest ←
              calculate_compounded_interest cache.curr_avg_stable_borrow_rate
                cache.stable_debt_last_update_timestamp cache.reserve_last_update_timestamp
          prev_stable ← ray_mul cache.curr_principal_stable_debt interest
          total ← checked_add curr_variable cache.curr_total_stable_debt
          less_variable ← checked_sub total prev_variable
          total_debt_accrued ← checked_sub less_variable prev_stable
          amount_to_mint ← percent_mul total_debt_accrued cache.reserve_factor
          mint_to_treasury accrued amount_to_mint cache.next_liquidity_index))
          ≡ some q
        → expected_treasury cache accrued ≡ ok (pos q)
    by_factor true e h = rw (eqb_pos cache.reserve_factor, e) (ap (λ n. ok (pos n)) (some_path h))
    by_factor false e h =
        let scaled = cache.curr_scaled_variable_debt in
        let (pv, e1, h1) = >>=-eq-some (ray_mul scaled cache.curr_variable_borrow_index) _ h in
        let (cv, e2, h2) = >>=-eq-some (ray_mul scaled cache.next_variable_borrow_index) _ h1 in
        let (interest, e3, h3) =
          >>=-eq-some
            (calculate_compounded_interest cache.curr_avg_stable_borrow_rate
              cache.stable_debt_last_update_timestamp cache.reserve_last_update_timestamp)
            _ h2 in
        let (ps, e4, h4) = >>=-eq-some (ray_mul cache.curr_principal_stable_debt interest) _ h3 in
        let (total, e5, h5) = >>=-eq-some (checked_add cv cache.curr_total_stable_debt) _ h4 in
        let (less, e6, h6) = >>=-eq-some (checked_sub total pv) _ h5 in
        let (rest, e7, h7) = >>=-eq-some (checked_sub less ps) _ h6 in
        let (amount, e8, h8) = >>=-eq-some (percent_mul rest cache.reserve_factor) _ h7 in
        let (sum, _) = checked_add-eq-some cv cache.curr_total_stable_debt total e5 in
        let (le6, k6) = checked_sub-eq-some total pv less e6 in
        let (le7, k7) = checked_sub-eq-some less ps rest e7 in
        rw
          (
            eqb_pos cache.reserve_factor,
            e,
            ray_mul-eq-some scaled cache.next_variable_borrow_index cv e2,
            ray_mul-eq-some scaled cache.curr_variable_borrow_index pv e1,
            previous_stable-eq-some cache.curr_principal_stable_debt
                cache.curr_avg_stable_borrow_rate cache.stable_debt_last_update_timestamp
                cache.reserve_last_update_timestamp interest ps rate_fits time_fits le e3 e4,
            net cv cache.curr_total_stable_debt pv ps total less rest sum le6 k6 le7 k7,
            percent_mul-eq-some rest cache.reserve_factor amount e8,
          )
          (mint_to_treasury-eq-some accrued amount cache.next_liquidity_index q fits h8)
