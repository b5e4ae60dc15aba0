-- ===== src/Calculations/Actions/Coherence.antt =====
-- Every action of test-suites/helpers/utils/calculations.ts moves the liquidity that it names, and
-- leaves a reserve whose totals and ratios fit.
use rasa_lending_platform_sm.Prelude.{◌≡◌, refl, ◌∙◌, some, arith, if◌then◌else◌}
use rasa_lending_platform_sm.Prelude.Int.{ℤ, pos, ◌+ℤ◌, ◌-ℤ◌, ltb_ℤ}
use rasa_lending_platform_sm.Prelude.Result.{Result, ok, >>=-eq-ok, defined}
use rasa_lending_platform_sm.Types.{SymbolMap, ReserveParams}
use rasa_lending_platform_sm.Calculations.Data.{ReserveData, UserReserveData}
use rasa_lending_platform_sm.Calculations.State.{
  update_state, update_liquidity_and_usage_ratios, start_reserve,
}
use rasa_lending_platform_sm.Calculations.Liquidity.{
  calc_expected_reserve_data_after_deposit, amount_to_withdraw,
  calc_expected_reserve_data_after_withdraw, keep_average_rate,
  calc_expected_reserve_data_after_mint_unbacked, calc_expected_reserve_data_after_back_unbacked,
  share_fee,
}
use rasa_lending_platform_sm.Calculations.Actions.Frame.{
  IsCoherent, defined-eq-ok, finish_reserve-IsCoherent, update_liquidity-moves,
}

-- The reserve is coherent, and its liquidity is that from before with `added` and without `taken`.
pub record Moves (before : ReserveData) (added taken : ℤ) (e : ReserveData) : Type 0 where
  pub coherent : IsCoherent e
  pub start : ℤ
  pub start_eq : before.available_liquidity ≡ some start
  pub available_eq : e.available_liquidity ≡ some (start +ℤ added -ℤ taken)

module _ (ps : SymbolMap ReserveParams) (before : ReserveData) (t : ℤ) where
  -- The common end: liquidity moves, the draft changes but for its liquidity, and the action finishes.
  pub finish-Moves :
      (x moved y : ReserveData) (added taken : ℤ) {e : ReserveData}
      → update_liquidity_and_usage_ratios before x added taken ≡ ok moved
      → y.available_liquidity ≡ moved.available_liquidity
      → IsCoherent e × (e.available_liquidity ≡ y.available_liquidity)
      → Moves before added taken e
  finish-Moves x moved y added taken liquidity same (coherent, kept) =
      let (a, u, start_eq, (available_eq, _, _)) =
        update_liquidity-moves before x added taken liquidity in
      record {
        coherent = coherent;
        start = a;
        start_eq = start_eq;
        available_eq = kept ∙ same ∙ available_eq;
      }

  -- The first step of every action, and the liquidity that the second moves.
  abbrev pub step_one : Result ReserveData
  step_one = update_state before (start_reserve before) t

  abbrev pub step_two : ReserveData → ℤ → ℤ → Result ReserveData
  step_two x added taken = update_liquidity_and_usage_ratios before x added taken

  pub deposit-Moves :
      (amount : ℤ) {e : ReserveData}
      → calc_expected_reserve_data_after_deposit ps amount before t ≡ ok e
      → Moves before amount (pos 0) e
  unfolding calc_expected_reserve_data_after_deposit
  deposit-Moves amount h =
      let (x, _, h₁) = >>=-eq-ok step_one _ h in
      let (funded, moved, h₂) = >>=-eq-ok (step_two x amount (pos 0)) _ h₁ in
      let y = record funded { average_stable_borrow_rate = before.average_stable_borrow_rate } in
      finish-Moves x funded y amount (pos 0) moved refl (finish_reserve-IsCoherent ps before y h₂)

  pub withdraw-Moves :
      (asked : ℤ) (user : UserReserveData) {e : ReserveData}
      → calc_expected_reserve_data_after_withdraw ps asked before user t ≡ ok e
      → (amount : ℤ) × (amount_to_withdraw asked before user t ≡ ok amount)
        × Moves before (pos 0) amount e
  unfolding calc_expected_reserve_data_after_withdraw
  withdraw-Moves asked user h =
      let (amount, asks, h₀) = >>=-eq-ok (amount_to_withdraw asked before user t) _ h in
      let (x, _, h₁) = >>=-eq-ok step_one _ h₀ in
      let (drained, moved, h₂) = >>=-eq-ok (step_two x (pos 0) amount) _ h₁ in
      let y = record drained { average_stable_borrow_rate = before.average_stable_borrow_rate } in
      (
        amount,
        asks,
        finish-Moves x drained y (pos 0) amount moved refl
            (finish_reserve-IsCoherent ps before y h₂),
      )

  averaged_keeps :
      (x : ReserveData) {y : ReserveData}
      → keep_average_rate before x ≡ ok y
      → y.available_liquidity ≡ x.available_liquidity
  unfolding keep_average_rate
  averaged_keeps x h = ground arith

  pub mint_unbacked-Moves :
      (amount : ℤ) {e : ReserveData}
      → calc_expected_reserve_data_after_mint_unbacked ps amount before t ≡ ok e
      → Moves before (pos 0) (pos 0) e
  unfolding calc_expected_reserve_data_after_mint_unbacked
  mint_unbacked-Moves amount h =
      let (x, _, h₁) = >>=-eq-ok step_one _ h in
      let (unbacked, _, h₂) = >>=-eq-ok (defined before.unbacked) _ h₁ in
      let minted = record x { unbacked = some (unbacked +ℤ amount) } in
      let (funded, moved, h₃) = >>=-eq-ok (step_two minted (pos 0) (pos 0)) _ h₂ in
      let (y, averaged, h₄) = >>=-eq-ok (keep_average_rate before funded) _ h₃ in
      finish-Moves minted funded y (pos 0) (pos 0) moved (averaged_keeps funded averaged)
        (finish_reserve-IsCoherent ps before y h₄)

  -- What backing adds: the amount, but no more than is unbacked, and the fee.
  abbrev pub backing : ℤ → ℤ → ℤ
  backing amount unbacked = if ltb_ℤ amount unbacked then amount else unbacked

  pub back_unbacked-Moves :
      (supply amount fee share : ℤ) {e : ReserveData}
      → calc_expected_reserve_data_after_back_unbacked ps supply amount fee share before t ≡ ok e
      → (unbacked : ℤ) × (before.unbacked ≡ some unbacked)
        × Moves before (backing amount unbacked +ℤ fee) (pos 0) e
  unfolding calc_expected_reserve_data_after_back_unbacked
  back_unbacked-Moves supply amount fee share h =
      let (x, _, h₁) = >>=-eq-ok step_one _ h in
      let (unbacked, is_unbacked, h₂) = >>=-eq-ok (defined before.unbacked) _ h₁ in
      let added = backing amount unbacked +ℤ fee in
      let (shared, _, h₃) = >>=-eq-ok (share_fee supply fee share x) _ h₂ in
      let backed = record shared { unbacked = some (unbacked -ℤ backing amount unbacked) } in
      let (funded, moved, h₄) = >>=-eq-ok (step_two backed added (pos 0)) _ h₃ in
      let (y, averaged, h₅) = >>=-eq-ok (keep_average_rate before funded) _ h₄ in
      (
        unbacked,
        defined-eq-ok before.unbacked is_unbacked,
        finish-Moves backed funded y added (pos 0) moved (averaged_keeps funded averaged)
            (finish_reserve-IsCoherent ps before y h₅),
      )
