-- ===== src/Types.antt =====
-- The data types of helpers/types.ts that the other parts share. A decimal string that the code
-- hands to `BigNumber.from` is the integer that it spells.
use mathlib.Core.Bool.{Bool}
use mathlib.Core.List.{List}
use mathlib.Core.Option.{Option}
use Prim.Native.String.{String}
use rasa_lending_platform_sm.Prelude.Int.{ℤ}

pub data RateMode : Type 0 where
  none stable variable : RateMode

pub record InterestRateStrategyParams : Type 0 where
  pub name : String
  pub optimal_usage_ratio : ℤ
  pub base_variable_borrow_rate : ℤ
  pub variable_rate_slope1 : ℤ
  pub variable_rate_slope2 : ℤ
  pub stable_rate_slope1 : ℤ
  pub stable_rate_slope2 : ℤ
  pub base_stable_rate_offset : ℤ
  pub stable_rate_excess_offset : ℤ
  pub optimal_stable_to_total_debt_ratio : ℤ

pub record ReserveBorrowParams : Type 0 where
  pub borrowing_enabled : Bool
  pub stable_borrow_rate_enabled : Bool
  pub reserve_decimals : ℤ
  pub borrow_cap : ℤ
  pub debt_ceiling : ℤ
  pub borrowable_isolation : Bool
  pub flash_loan_enabled : Bool

pub record ReserveCollateralParams : Type 0 where
  pub base_ltv_as_collateral : ℤ
  pub liquidation_threshold : ℤ
  pub liquidation_bonus : ℤ
  pub liquidation_protocol_fee : Option ℤ

-- `IReserveParams extends IReserveBorrowParams, IReserveCollateralParams`; the token
-- implementation is the text of an `eContractid`.
pub record ReserveParams : Type 0 where
  pub borrow : ReserveBorrowParams
  pub open borrow use *
  pub collateral : ReserveCollateralParams
  pub open collateral use *
  pub rs_token_impl : String
  pub reserve_factor : ℤ
  pub supply_cap : ℤ
  pub strategy : InterestRateStrategyParams

-- An object with a key for each symbol, in the order of its keys.
abbrev pub SymbolMap {ℓ} : Type ℓ → Type ℓ
SymbolMap T = List (String × T)
