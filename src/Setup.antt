-- ===== src/Setup.antt =====
-- helpers/init-helpers.ts: the reserves of a market are initialised and configured, in batches, and a
-- market is added to the registry. The logged lines are left out. The entries of an object have
-- different keys.
pub mod Deployments
pub mod Initialization
pub mod Configuration
pub mod Lookups
mod Examples
use text.Mathlib.Text.{◌==◌ as str_eq}
use Prim.Native.String.{◌++◌ as joined}
use rasa_lending_platform_sm.Prelude.{
  Bool, true, false, ◌||◌, String, Option, none, some, List, [], ◌∷◌, map, if◌then◌else◌,
}
use rasa_lending_platform_sm.Prelude.Int.{ℤ, negsuc, eqb_ℤ}
use rasa_lending_platform_sm.Prelude.Result
use rasa_lending_platform_sm.Prelude.Result.{
  Result, ok, err, reverted, missing_deployment, undefined_value, thrown,
}
use rasa_lending_platform_sm.Types.{SymbolMap, ReserveParams}
use rasa_lending_platform_sm.Utilities.{chunk}
use rasa_lending_platform_sm.Scenario.Actions.{given}
use rasa_lending_platform_sm.Scenario.Chain.{
  Run, mined, refused, pure, lift, asks, throw, continue, ◌>>=◌, ◌>>◌,
}
use rasa_lending_platform_sm.Setup.Deployments.{
  Deployed, InitInput, ConfigureInput, SetupCall, Market,
}

abbrev pub zero_address : String
zero_address = "0x0000000000000000000000000000000000000000"

-- The value of an object at a key.
unfoldable pub value_at {ℓ} : {T : Type ℓ} → String → SymbolMap T → Option T
value_at key [] = none
value_at key ((name, value) ∷ rest) = if str_eq name key then some value else value_at key rest

abbrev pub is_delegation_aware : ReserveParams → Bool
is_delegation_aware params = str_eq params.rs_token_impl "DelegationAwareRSToken"

abbrev pub is_generic : ReserveParams → Bool
is_generic params = str_eq params.rs_token_impl "RSToken"

-- The entries of an object whose values pass a test.
unfoldable pub entries_that :
    (ReserveParams → Bool) → SymbolMap ReserveParams → SymbolMap ReserveParams
entries_that test [] = []
entries_that test ((symbol, params) ∷ rest) =
    let others = entries_that test rest in if test params then (symbol, params) ∷ others else others

-- A reserve to initialise: what the code keeps of it in `reserveSymbols`, `reserveTokens`,
-- `reserveInitDecimals`, `strategyAddressPerAsset` and `RSTokenType`.
pub record Selected : Type 0 where
  pub symbol : String
  pub token : String
  pub decimals : ℤ
  pub strategy_address : String
  pub generic : Bool

-- The addresses of the implementations.
pub record Implementations : Type 0 where
  pub stable_debt_token : String
  pub variable_debt_token : String
  pub rs_token : String
  pub delegation_aware : String

-- An element of `initInputParams`.
unfoldable pub init_input : Implementations → String → String → Selected → InitInput
init_input impls treasury incentives reserve = record {
  rs_token_impl = if reserve.generic then impls.rs_token else impls.delegation_aware;
  stable_debt_token_impl = impls.stable_debt_token;
  variable_debt_token_impl = impls.variable_debt_token;
  underlying_asset_decimals = reserve.decimals;
  interest_rate_strategy_address = reserve.strategy_address;
  underlying_asset = reserve.token;
  treasury = treasury;
  incentives_controller = incentives;
  underlying_asset_name = reserve.symbol;
  rs_token_name = joined "RASA " reserve.symbol;
  rs_token_symbol = joined "RS" reserve.symbol;
  variable_debt_token_name = joined "RASA Variable Debt " reserve.symbol;
  variable_debt_token_symbol = joined "variableDebt" reserve.symbol;
  stable_debt_token_name = joined "RASA Stable Debt " reserve.symbol;
  stable_debt_token_symbol = joined "stableDebt$" reserve.symbol;
  params = "0x10";
}

module _ (m : Market) where
  open m use {
    State, deployed, rs_token_of, used_as_collateral, acl_admin, acl_manager_of, pool_configurator,
    registry_owner, deployer, send, is_valid_address,
  }

  -- `hre.deployments.get(id)`.
  unfoldable pub deployment_at : State → Deployed → Result String
  deployment_at s id = elim (deployed s id) [
    | none ↦ err missing_deployment
    | some address ↦ ok address
  ]

  unfoldable pub deployment : Deployed → Run State String
  deployment id s = lift (deployment_at s id) s

  unfoldable pub transact : String → SetupCall → Run State (Unit {0})
  transact signer call s = elim (send s signer call) [
    | mined receipt s' ↦ ok (tt, s')
    | refused reason s' ↦ err reverted
  ]

  unfoldable pub transact_all : String → List SetupCall → Run State (Unit {0})
  transact_all signer [] = pure tt
  transact_all signer (call ∷ calls) = do transact signer call; transact_all signer calls

  -- The token of a reserve that is not initialised yet; without a token a reserve is skipped.
  unfoldable pub token_to_init : State → SymbolMap String → String → Option String
  token_to_init s tokens symbol = elim (value_at symbol tokens) [
    | none ↦ none
    | some token ↦
        if str_eq token ""
        then none
        else if str_eq (rs_token_of s token) zero_address
        then some token
        else none
  ]

  -- `strategyAddresses[name]`, and the object after it: a strategy is looked up once.
  unfoldable pub load_strategy :
      State → String → SymbolMap String → Result (String × SymbolMap String)
  load_strategy s name loaded = elim (value_at name loaded) [
    | none ↦ load
    | some address ↦ if str_eq address "" then load else ok (address, loaded)
  ]
    where
      load : Result (String × SymbolMap String)
      load = elim (deployment_at s (Deployed.reserve_strategy name)) [
        | err e ↦ err e
        | ok address ↦ ok (address, (name, address) ∷ loaded)
      ]

  -- The reserves to initialise, with the strategies loaded so far.
  unfoldable pub select_reserves :
      State → SymbolMap String → SymbolMap ReserveParams → SymbolMap String → Result (List Selected)
  select_reserves s tokens [] loaded = ok []
  select_reserves s tokens ((symbol, params) ∷ rest) loaded = elim (token_to_init s tokens symbol) [
    | none ↦ select_reserves s tokens rest loaded
    | some token ↦ Result.◌>>=◌ (load_strategy s params.strategy.name loaded) (λ strategy.
        Result.◌>>=◌ (select_reserves s tokens rest strategy.1) (λ others. ok (
          record {
            symbol = symbol;
            token = token;
            decimals = params.reserve_decimals;
            strategy_address = strategy.0;
            generic = is_generic params;
          }
          ∷ others)))
  ]
