-- ===== src/Calculations/Liquidity.antt =====
-- The reserve after an action that moves liquidity, of
-- test-suites/helpers/utils/calculations.ts: deposit, withdrawal, and the bridge's two actions.
pub mod Settled
pub mod Minted
use rasa_lending_platform_sm.Prelude.{ℕ, ◌^◌, ◌-◌, some, if◌then◌else◌}
use rasa_lending_platform_sm.Prelude.Int.{ℤ, pos, ◌+ℤ◌, ◌-ℤ◌, eqb_ℤ, ltb_ℤ}
use rasa_lending_platform_sm.Prelude.Result.{Result, ok, ◌>>=◌, defined}
use rasa_lending_platform_sm.Types.{SymbolMap, ReserveParams}
use rasa_lending_platform_sm.WadRayMath.{ray, ray_mul, ray_div, percent_mul, wad_to_ray}
use rasa_lending_platform_sm.Calculations.Data.{ReserveData, UserReserveData}
use rasa_lending_platform_sm.Calculations.Rates.{calc_expected_average_stable_borrow_rate}
use rasa_lending_platform_sm.Calculations.State.{
  calc_expected_rs_token_balance, update_state, update_liquidity_and_usage_ratios, start_reserve,
  finish_reserve,
}

abbrev pub max_uint_amount : ℕ
max_uint_amount = 2 ^ 256 - 1

unfoldable pub calc_expected_reserve_data_after_deposit :
    SymbolMap ReserveParams → ℤ → ReserveData → ℤ → Result ReserveData
calc_expected_reserve_data_after_deposit reserves_params amount_deposited before tx_timestamp = do
  updated ← update_state before (start_reserve before) tx_timestamp
  funded ← update_liquidity_and_usage_ratios before updated amount_deposited (pos 0)
  finish_reserve reserves_params before
      (record funded { average_stable_borrow_rate = before.average_stable_borrow_rate })

-- The amount that a withdrawal takes: the whole balance if the largest amount is asked for.
unfoldable pub amount_to_withdraw : ℤ → ReserveData → UserReserveData → ℤ → Result ℤ
amount_to_withdraw amount before user tx_timestamp =
    if eqb_ℤ amount (pos max_uint_amount)
    then calc_expected_rs_token_balance before user tx_timestamp
    else ok amount

unfoldable pub calc_expected_reserve_data_after_withdraw :
    SymbolMap ReserveParams → ℤ → ReserveData → UserReserveData → ℤ → Result ReserveData
calc_expected_reserve_data_after_withdraw reserves_params amount_withdrawn before user
      tx_timestamp =
    do
      amount ← amount_to_withdraw amount_withdrawn before user tx_timestamp
      updated ← update_state before (start_reserve before) tx_timestamp
      drained ← update_liquidity_and_usage_ratios before updated (pos 0) amount
      finish_reserve reserves_params before
          (record drained { average_stable_borrow_rate = before.average_stable_borrow_rate })

-- `calcExpectedAverageStableBorrowRate` as both bridge actions call it, with no change of debt.
unfoldable pub keep_average_rate : ReserveData → ReserveData → Result ReserveData
keep_average_rate before expected = do
  average_before ← defined before.average_stable_borrow_rate
  total_before ← defined before.total_stable_debt
  stable_rate ← defined before.stable_borrow_rate
  average ← calc_expected_average_stable_borrow_rate average_before total_before (pos 0) stable_rate
  ok (record expected { average_stable_borrow_rate = some average })

unfoldable pub calc_expected_reserve_data_after_mint_unbacked :
    SymbolMap ReserveParams → ℤ → ReserveData → ℤ → Result ReserveData
calc_expected_reserve_data_after_mint_unbacked reserves_params amount_minted before tx_timestamp =
    do
      updated ← update_state before (start_reserve before) tx_timestamp
      unbacked ← defined before.unbacked
      let minted = record updated { unbacked = some (unbacked +ℤ amount_minted) }
      funded ← update_liquidity_and_usage_ratios before minted (pos 0) (pos 0)
      averaged ← keep_average_rate before funded
      finish_reserve reserves_params before averaged

unfoldable pub cumulate_to_liquidity_index : ℤ → ℤ → ℤ → Result ℤ
cumulate_to_liquidity_index liquidity_index total_liquidity amount = do
  ratio ← ray_div (wad_to_ray amount) (wad_to_ray total_liquidity)
  ok (ray_mul (ratio +ℤ pos ray) liquidity_index)

-- The fee's shares go to the liquidity index and to the treasury.
unfoldable pub share_fee : ℤ → ℤ → ℤ → ReserveData → Result ReserveData
share_fee scaled_supply fee bridge_protocol_fee updated = do
  index ← defined updated.liquidity_index
  accrued ← defined updated.accrued_to_treasury_scaled
  let to_protocol = percent_mul fee bridge_protocol_fee
  let to_lp = fee -ℤ to_protocol
  let total_supply = ray_mul scaled_supply index
  next_index ← cumulate_to_liquidity_index index (total_supply +ℤ ray_mul accrued index) to_lp
  protocol_scaled ← ray_div to_protocol next_index
  ok (record updated {
    liquidity_index = some next_index;
    accrued_to_treasury_scaled = some (accrued +ℤ protocol_scaled);
  })

unfoldable pub calc_expected_reserve_data_after_back_unbacked :
    SymbolMap ReserveParams → ℤ → ℤ → ℤ → ℤ → ReserveData → ℤ → Result ReserveData
calc_expected_reserve_data_after_back_unbacked reserves_params scaled_supply amount fee
      bridge_protocol_fee before tx_timestamp =
    do
      updated ← update_state before (start_reserve before) tx_timestamp
      unbacked ← defined before.unbacked
      let backing = if ltb_ℤ amount unbacked then amount else unbacked
      shared ← share_fee scaled_supply fee bridge_protocol_fee updated
      let backed = record shared { unbacked = some (unbacked -ℤ backing) }
      funded ← update_liquidity_and_usage_ratios before backed (backing +ℤ fee) (pos 0)
      averaged ← keep_average_rate before funded
      finish_reserve reserves_params before averaged
