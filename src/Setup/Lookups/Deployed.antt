-- ===== src/Setup/Lookups/Deployed.antt =====
-- helpers/market-config-helpers.ts: what the deployment finds among the deployments of hardhat, and
-- what it stores there, with the names of helpers/deploy-ids.ts. The deployments are an object from
-- names to deployments, which the functions take, and return where they store.
pub mod Names
pub mod Symbols
use Prim.Native.String.{◌++◌ as joined, len, slice}
use text.Mathlib.Text.{◌==◌ as str_eq, find?}
use rasa_lending_platform_sm.Prelude.{
  Bool, true, false, ◌&&◌, ◌||◌, not, ◌+◌, String, Option, none, some, List, [], ◌∷◌, map,
  if◌then◌else◌,
}
use rasa_lending_platform_sm.Prelude.Result.{Result, ok, err, ◌>>=◌}
use rasa_lending_platform_sm.Types.{SymbolMap, ReserveParams}
use rasa_lending_platform_sm.Setup.Lookups.{
  PoolConfiguration, truthy, get_param_per_network, is_incentives_enabled,
}

-- What the names of deployments hold, for the name of a market.
abbrev pub testnet_token_prefix : String → String
testnet_token_prefix market = joined "-TestnetMintableERC20-" market

abbrev pub testnet_reward_token_prefix : String → String
testnet_reward_token_prefix market = joined "-TestnetMintableERC20-Reward-" market

abbrev pub testnet_price_aggr_prefix : String → String
testnet_price_aggr_prefix market = joined "-TestnetPriceAggregator-" market

abbrev pub rs_token_prefix : String → String
rs_token_prefix market = joined "-RSToken-" market

abbrev pub variable_debt_prefix : String → String
variable_debt_prefix market = joined "-VariableDebtToken-" market

abbrev pub stable_debt_prefix : String → String
stable_debt_prefix market = joined "-StableDebtToken-" market

pub data AssetType : Type 0 where
  rs_token variable_debt_token stable_debt_token : AssetType

unfoldable pub get_prefix_by_asset_type : String → AssetType → String
get_prefix_by_asset_type market rs_token = rs_token_prefix market
get_prefix_by_asset_type market variable_debt_token = variable_debt_prefix market
get_prefix_by_asset_type market stable_debt_token = stable_debt_prefix market

-- `key.includes(part)`.
unfoldable pub includes : String → String → Bool
includes key part = elim (find? key part) [ none ↦ false | some position ↦ true ]

-- `key.replace(part, '')`: without the first occurrence.
unfoldable pub without : String → String → String
without key part = elim (find? key part) [
  | none ↦ key
  | some position ↦ joined (slice key 0 position) (slice key (position + len part) (len key))
]

-- `Object.keys(entries).includes(key)`.
unfoldable pub has_key {ℓ} : {T : Type ℓ} → SymbolMap T → String → Bool
has_key [] key = false
has_key ((name, value) ∷ rest) key = str_eq name key || has_key rest key

-- `symbols.includes(symbol)`.
unfoldable pub is_one_of : List String → String → Bool
is_one_of [] symbol = false
is_one_of (s ∷ rest) symbol = str_eq s symbol || is_one_of rest symbol

-- `entries[key] = value`.
unfoldable pub put {ℓ} : {T : Type ℓ} → String → T → SymbolMap T → SymbolMap T
put key value [] = (key, value) ∷ []
put key value ((name, old) ∷ rest) =
    let others = put key value rest in
    if str_eq name key then (name, value) ∷ rest else (name, old) ∷ others

-- The addresses that the data provider returns for a reserve.
pub record TokenAddresses : Type 0 where
  pub rs_token_address : String
  pub stable_debt_token_address : String
  pub variable_debt_token_address : String

-- An address and an artifact for each name.
abbrev pub Deployments : Type 0 → Type 0
Deployments Artifact = SymbolMap (String × Artifact)

module _ {Artifact : Type 0} where
  -- The names that hold a prefix, each without it, where what is left passes a test.
  unfoldable pub symbols_that :
      String → (String → Bool) → Deployments Artifact → Deployments Artifact
  symbols_that prefix test [] = []
  symbols_that prefix test ((key, deployment) ∷ rest) =
      let others = symbols_that prefix test rest in
      if includes key prefix && test (without key prefix)
      then (without key prefix, deployment) ∷ others
      else others

  unfoldable pub get_sub_tokens_by_prefix : Deployments Artifact → String → Deployments Artifact
  get_sub_tokens_by_prefix deployments prefix = symbols_that prefix (λ symbol. true) deployments

  unfoldable pub get_symbols_by_prefix : Deployments Artifact → String → List String
  get_symbols_by_prefix deployments prefix =
      map (λ token. token.0) (symbols_that prefix (λ symbol. true) deployments)

  -- `keys.reduce((acc, key) => { acc[symbol] = allDeployments[key].address; ... })`.
  unfoldable pub addresses_of : Deployments Artifact → SymbolMap String → SymbolMap String
  addresses_of [] acc = acc
  addresses_of ((symbol, deployment) ∷ rest) acc = addresses_of rest (put symbol (deployment.0) acc)

  -- `live` is that of the network in the configuration of hardhat, and `reserves` are those of the
  -- market's configuration.
  unfoldable pub get_reserve_addresses :
      String
      → Deployments Artifact
      → Bool
      → PoolConfiguration
      → SymbolMap ReserveParams
      → String
      → SymbolMap String
  get_reserve_addresses market deployments live config reserves network =
      if live && not (truthy config.testnet_market)
      then elim (get_param_per_network config.reserve_assets network) [
        | none ↦ []
        | some assets ↦ assets
      ]
      else addresses_of (symbols_that (testnet_token_prefix market) (has_key reserves) deployments)
          []

  -- `enable_rewards` is `ENABLE_REWARDS` of the environment.
  unfoldable pub reward_keys :
      String → Deployments Artifact → Option Bool → PoolConfiguration → String → List String
  reward_keys market deployments enable_rewards config network =
      if is_incentives_enabled enable_rewards config network
      then get_symbols_by_prefix deployments (testnet_reward_token_prefix market)
      else []

  unfoldable pub get_chainlink_oracles :
      String
      → Deployments Artifact
      → Bool
      → Option Bool
      → PoolConfiguration
      → SymbolMap ReserveParams
      → String
      → SymbolMap String
  get_chainlink_oracles market deployments live enable_rewards config reserves network =
      if live
      then elim (get_param_per_network (some config.price_aggregator) network) [
        | none ↦ []
        | some aggregators ↦ aggregators
      ]
      else addresses_of
          (symbols_that (testnet_price_aggr_prefix market)
            (λ symbol.
              has_key reserves symbol
              || is_one_of (reward_keys market deployments enable_rewards config network) symbol)
            deployments)
          []

  -- The three deployments of a reserve. `save` of hardhat replaces one of the same name; the
  -- artifacts are arguments.
  unfoldable pub save_tokens :
      String
      → (AssetType → Artifact)
      → String
      → TokenAddresses
      → Deployments Artifact
      → Deployments Artifact
  save_tokens market artifact symbol tokens deployments =
      save stable_debt_token tokens.stable_debt_token_address (
        save variable_debt_token tokens.variable_debt_token_address
          (save rs_token tokens.rs_token_address deployments))
    where
      save : AssetType → String → Deployments Artifact → Deployments Artifact
      save type address =
          put (joined symbol (get_prefix_by_asset_type market type)) (address, artifact type)

  -- What the data provider answers for each reserve is stored; `reserves` are their addresses.
  unfoldable pub save_each :
      String
      → (AssetType → Artifact)
      → (String → Result TokenAddresses)
      → SymbolMap String
      → Deployments Artifact
      → Result (Deployments Artifact)
  save_each market artifact tokens_of [] deployments = ok deployments
  save_each market artifact tokens_of ((symbol, reserve) ∷ rest) deployments = do
    tokens ← tokens_of reserve
    save_each market artifact tokens_of rest (save_tokens market artifact symbol tokens deployments)

  -- `data_provider` is the deployment of the data provider with its call, and `artifact_of` looks up
  -- an artifact by its name.
  unfoldable pub save_pool_tokens :
      String
      → Result (String → Result TokenAddresses)
      → (String → Result Artifact)
      → SymbolMap String
      → Deployments Artifact
      → Result (Deployments Artifact)
  save_pool_tokens market data_provider artifact_of reserves deployments = do
    tokens_of ← data_provider
    rs_artifact ← artifact_of "RSToken"
    variable_artifact ← artifact_of "VariableDebtToken"
    stable_artifact ← artifact_of "StableDebtToken"
    save_each market (artifacts rs_artifact variable_artifact stable_artifact) tokens_of reserves
        deployments
    where
      artifacts : Artifact → Artifact → Artifact → AssetType → Artifact
      artifacts rs variable stable rs_token = rs
      artifacts rs variable stable variable_debt_token = variable
      artifacts rs variable stable stable_debt_token = stable
