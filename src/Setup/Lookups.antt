-- ===== src/Setup/Lookups.antt =====
-- helpers/market-config-helpers.ts: what the deployment reads from the configuration of a market. The
-- network, the configuration of hardhat and the environment are arguments; an object that may be
-- missing is an `Option`.
pub mod Assets
pub mod Deployed
use text.Mathlib.Text.{◌==◌ as str_eq}
use rasa_lending_platform_sm.Prelude.{
  Bool, true, false, ◌&&◌, not, String, Option, none, some, if◌then◌else◌,
}
use rasa_lending_platform_sm.Prelude.Result.{Result, ok, err, thrown, ◌>>=◌}
use rasa_lending_platform_sm.Types.{SymbolMap}
use rasa_lending_platform_sm.Setup.{zero_address, value_at}

-- The fields of a configuration that the lookups read.
pub record PoolConfiguration : Type 0 where
  pub testnet_market : Option Bool
  pub price_aggregator : SymbolMap (SymbolMap String)
  pub treasury : Option (SymbolMap String)
  pub reserve_assets : Option (SymbolMap (SymbolMap String))
  pub incentives_enabled : Option (SymbolMap Bool)
  pub l2_pool_enabled : Option (SymbolMap Bool)

-- `!!value`.
abbrev pub truthy : Option Bool → Bool
truthy none = false
truthy (some b) = b

unfoldable pub get_param_per_network {ℓ} : {T : Type ℓ} → Option (SymbolMap T) → String → Option T
get_param_per_network none network = none
get_param_per_network (some param) network = value_at network param

-- A required parameter; `falsy` tells what JavaScript takes for false.
unfoldable pub get_required_param_per_network {ℓ} :
    {T : Type ℓ} → (T → Bool) → Option (SymbolMap T) → String → Result T
get_required_param_per_network falsy none network = err (thrown "missing required parameter")
get_required_param_per_network falsy (some param) network = elim (value_at network param) [
  | none ↦ err (thrown "missing required value")
  | some value ↦ if falsy value then err (thrown "missing required value") else ok value
]

-- `isValidAddress` is an argument: it calls ethers.
unfoldable pub get_address_from_config :
    (String → Bool) → Option (SymbolMap String) → String → Result String
get_address_from_config is_valid param network = elim (get_param_per_network param network) [
  | none ↦ err (thrown "missing or not an address")
  | some value ↦ if is_valid value then ok value else err (thrown "missing or not an address")
]

-- The configurations of the markets are arguments.
unfoldable pub load_pool_config :
    PoolConfiguration → PoolConfiguration → String → Result PoolConfiguration
load_pool_config ethereum_market test_market name =
    if str_eq name "Ethereum"
    then ok ethereum_market
    else if str_eq name "Test"
    then ok test_market
    else err (thrown "Unsupported pool configuration")

-- `live` is that of the network in the configuration of hardhat.
unfoldable pub is_production_market : Bool → PoolConfiguration → Bool
is_production_market live config = live && not (truthy config.testnet_market)

abbrev pub is_testnet_market : Bool → PoolConfiguration → Bool
is_testnet_market live config = not (is_production_market live config)

-- The object of a network, where a missing one has no keys.
abbrev pub entry_of : Option (SymbolMap String) → String → Option String
entry_of none symbol = none
entry_of (some assets) symbol = value_at symbol assets

unfoldable pub get_reserve_address : PoolConfiguration → String → String → Result String
get_reserve_address config network symbol =
    elim (entry_of (get_param_per_network config.reserve_assets network) symbol) [
      | none ↦ err (thrown "Missing asset address")
      | some address ↦
          if str_eq address ""
          then err (thrown "Missing asset address")
          else if str_eq address zero_address
          then err (thrown "Missing asset address")
          else ok address
    ]

unfoldable pub get_oracle_by_asset : PoolConfiguration → String → String → Result String
get_oracle_by_asset config network symbol =
    elim (entry_of (value_at network config.price_aggregator) symbol) [
      | none ↦ err (thrown "Missing oracle address")
      | some address ↦
          if str_eq address "" then err (thrown "Missing oracle address") else ok address
    ]

unfoldable pub is_l2_pool_supported : PoolConfiguration → String → Bool
is_l2_pool_supported config network = truthy (get_param_per_network config.l2_pool_enabled network)

-- `ENABLE_REWARDS` of the environment, if it is set, or else the configuration.
unfoldable pub is_incentives_enabled : Option Bool → PoolConfiguration → String → Bool
is_incentives_enabled (some enabled) config network = enabled
is_incentives_enabled none config network =
    truthy (get_param_per_network config.incentives_enabled network)

-- The configured treasury, unless it is missing or zero, or else the deployed one. `getAddress` of
-- ethers and the deployment are arguments.
unfoldable pub get_treasury_address :
    (String → Result String) → Result String → PoolConfiguration → String → Result String
get_treasury_address get_address deployed config network =
    elim (get_param_per_network config.treasury network) [
      | none ↦ deployed
      | some treasury ↦ if str_eq treasury "" then deployed else (do
        configured ← get_address treasury
        zero ← get_address zero_address
        if str_eq configured zero then deployed else ok treasury)
    ]
