-- ===== src/Setup/Initialization.antt =====
-- `initReservesByHelper` and `addMarketToRegistry` of helpers/init-helpers.ts. Whether the market has
-- the pool of a layer 2 is an argument, read from the configuration of the market.
pub mod Strategies
use rasa_lending_platform_sm.Prelude.{Bool, String, List, [], ◌∷◌, map, if◌then◌else◌}
use rasa_lending_platform_sm.Prelude.Int.{ℤ}
use rasa_lending_platform_sm.Prelude.Result.{Result, thrown}
use rasa_lending_platform_sm.Types.{SymbolMap, ReserveParams}
use rasa_lending_platform_sm.Utilities.{chunk}
use rasa_lending_platform_sm.Scenario.Chain.{Run, pure, lift, asks, throw, continue, ◌>>=◌, ◌>>◌}
use rasa_lending_platform_sm.Prelude.{◌||◌}
use rasa_lending_platform_sm.Setup.Deployments.{Deployed, InitInput, SetupCall, Market}
use rasa_lending_platform_sm.Setup.{
  is_delegation_aware, is_generic, entries_that, Selected, Implementations, init_input, deployment,
  transact, transact_all, select_reserves,
}

-- The reserves with one of the two kinds of RS token.
abbrev pub is_listed : ReserveParams → Bool
is_listed params = is_delegation_aware params || is_generic params

module _ (m : Market) where
  open m use {State, registry_owner, is_valid_address}

  -- The implementation of the delegation aware token is looked up if a reserve needs it.
  unfoldable pub delegation_aware_for : SymbolMap ReserveParams → Run State String
  delegation_aware_for [] = pure ""
  delegation_aware_for (entry ∷ rest) = deployment m Deployed.delegation_aware_impl

  unfoldable pub init_reserves_by_helper :
      SymbolMap ReserveParams
      → SymbolMap String
      → String
      → String
      → String
      → Bool
      → Run State (Unit {0})
  init_reserves_by_helper reserves_params tokens admin treasury incentives l2_pool = do
    provider ← deployment m Deployed.addresses_provider
    pool ← deployment m (if l2_pool then Deployed.l2_pool_impl else Deployed.pool_impl)
    stable ← deployment m Deployed.stable_debt_token_impl
    variable ← deployment m Deployed.variable_debt_token_impl
    rs_token ← deployment m Deployed.rs_token_impl
    delegation_aware ← delegation_aware_for (entries_that is_delegation_aware reserves_params)
    choice ← asks (λ s. select_reserves m s tokens (entries_that is_listed reserves_params) [])
    reserves ← lift choice
    let impls : Implementations = record {
      stable_debt_token = stable;
      variable_debt_token = variable;
      rs_token = rs_token;
      delegation_aware = delegation_aware;
    }
    let inputs : List InitInput = map (init_input impls treasury incentives) reserves
    proxy ← deployment m Deployed.configurator_proxy
    configurator ← deployment m Deployed.configurator_impl
    transact_all m admin (map (SetupCall.init_reserves proxy) (chunk inputs 3))

  -- The transaction, if the address of the provider is valid.
  abbrev checked : Bool → Run State (Unit {0}) → Run State (Unit {0})
  checked valid registration =
      if valid
      then registration
      else throw (thrown "addressesProvider is missing or is not an address")

  unfoldable pub add_market_to_registry : ℤ → String → Run State (Unit {0})
  add_market_to_registry provider_id provider = do
    registry ← deployment m Deployed.registry
    owner ← asks (λ s. registry_owner s registry)
    checked (is_valid_address provider)
        (transact m owner (SetupCall.register_addresses_provider registry provider provider_id))
