-- ===== src/Setup/Examples.antt =====
-- The theorems on helpers/init-helpers.ts at a small market, in which every transaction is mined.
use rasa_lending_platform_sm.Prelude.{
  ℕ, suc, ◌≡◌, refl, ◌↔◌, true, false, String, none, some, List, [], ◌∷◌,
}
use rasa_lending_platform_sm.Prelude.Int.{pos}
use rasa_lending_platform_sm.Prelude.Result.{Result, ok, ◌>>=◌}
use rasa_lending_platform_sm.Calculations.Examples.Market.{listed}
use rasa_lending_platform_sm.Scenario.Chain.{Receipt, mined}
use rasa_lending_platform_sm.Setup.{zero_address, select_reserves, value_at}
use rasa_lending_platform_sm.Setup.Deployments.{Market}
use rasa_lending_platform_sm.Setup.Configuration.{configure_reserves_by_helper}
use rasa_lending_platform_sm.Setup.Configuration.Admin.{
  ConfigurationPasses, configure_reserves_by_helper_iff,
}
use rasa_lending_platform_sm.Setup.Initialization.Strategies.{
  selected_with, select_reserves-selected_with,
}
use rasa_lending_platform_sm.Setup.Lookups.{PoolConfiguration, get_param_per_network}
use rasa_lending_platform_sm.Setup.Lookups.Deployed.{
  Deployments, TokenAddresses, get_reserve_addresses, get_chainlink_oracles, symbols_that,
  addresses_of, includes, without, has_key, put, variable_debt_prefix, save_pool_tokens, save_each,
  save_tokens, get_symbols_by_prefix, get_prefix_by_asset_type, rs_token, get_sub_tokens_by_prefix,
}
use rasa_lending_platform_sm.Setup.Lookups.Deployed.Names.{
  Stored, token, other, named, tokens_of, told_apart, no_hyphen, get_sub_tokens_by_prefix-named,
}

abbrev receipt : Receipt
receipt = record {
  block_number = some 1;
  transaction_hash = some "0xhash";
  cumulative_gas_used = some (pos 1);
  effective_gas_price = pos 1;
}

-- A state is the number of transactions.
abbrev small_market : Market
small_market = record {
  State = ℕ;
  deployed = λ s id. some "0xdeployed";
  rs_token_of = λ s token. zero_address;
  used_as_collateral = λ s token. false;
  acl_admin = λ s provider. "0xadmin";
  pool_configurator = λ s provider. "0xconfigurator";
  acl_manager_of = λ s provider. "0xmanager";
  registry_owner = λ s registry. "0xowner";
  deployer = "0xdeployer";
  send = λ s signer call. mined receipt (suc s);
  is_valid_address = λ text. true;
}

select_reserves-selected_with_example :
    select_reserves small_market 0 (("DAI", "0xdai") ∷ []) listed []
    ≡ selected_with small_market 0 (("DAI", "0xdai") ∷ []) listed
select_reserves-selected_with_example =
    select_reserves-selected_with small_market 0 (("DAI", "0xdai") ∷ []) listed

-- Three transactions configure one reserve.
configure_reserves_by_helper_iff_example :
    (configure_reserves_by_helper small_market listed (("DAI", "0xdai") ∷ []) 0 ≡ ok (tt, 3))
    ↔ ConfigurationPasses small_market listed (("DAI", "0xdai") ∷ []) 0 3
configure_reserves_by_helper_iff_example =
    configure_reserves_by_helper_iff small_market listed (("DAI", "0xdai") ∷ []) 0 3

abbrev found : Deployments (Unit {0})
found =
    ("DAI-TestnetMintableERC20-Commons", ("0xdai", tt))
    ∷ ("Faucet-Commons", ("0xfaucet", tt))
    ∷ ("DAI-TestnetPriceAggregator-Commons", ("0xoracle", tt))
    ∷ ("GHO-TestnetPriceAggregator-Commons", ("0xother", tt))
    ∷ []

abbrev test_market : PoolConfiguration
test_market = record {
  testnet_market = some true;
  price_aggregator = ("main", ("DAI", "0xlisted") ∷ []) ∷ [];
  treasury = none;
  reserve_assets = none;
  incentives_enabled = none;
  l2_pool_enabled = none;
}

-- A test market on a live network has its own tokens, but the oracles of the configuration.
live_test_market :
    (get_reserve_addresses "Commons" found true test_market listed "main" ≡ ("DAI", "0xdai") ∷ [])
    × (get_chainlink_oracles "Commons" found true none test_market listed "main"
        ≡ ("DAI", "0xlisted") ∷ [])
unfolding get_reserve_addresses get_chainlink_oracles get_param_per_network value_at symbols_that
    addresses_of includes without has_key put
live_test_market = (refl, refl)

abbrev tokens : Deployments (Unit {0})
tokens = ("DAI", ("0xrsdai", tt)) ∷ ("WETH", ("0xrsweth", tt)) ∷ []

-- The tokens, between them a debt token and a contract of the market.
abbrev deployed : List (Stored (Unit {0}))
deployed =
    token "DAI" ("0xrsdai", tt)
    ∷ other "DAI-VariableDebtToken-Commons" ("0xdebt", tt)
    ∷ token "WETH" ("0xrsweth", tt)
    ∷ other "Pool-Proxy-Commons" ("0xpool", tt)
    ∷ []

deployed-told_apart : told_apart (get_prefix_by_asset_type "Commons" rs_token) deployed ≡ true
unfolding told_apart no_hyphen includes get_prefix_by_asset_type
deployed-told_apart = refl

tokens_of_deployed : tokens_of deployed ≡ tokens
unfolding tokens_of
tokens_of_deployed = refl

abbrev token_addresses : String → Result TokenAddresses
token_addresses reserve = ok (record {
  rs_token_address = "0xrs";
  stable_debt_token_address = "0xstable";
  variable_debt_token_address = "0xvariable";
})

-- The tokens of one asset type are found among those of all three.
saved_tokens :
    (save_pool_tokens "Commons"
        (ok token_addresses)
        (λ name. ok tt)
        (("DAI", "0xdai") ∷ ("WETH", "0xweth") ∷ [])
        []
      >>= λ saved. ok (get_symbols_by_prefix saved (variable_debt_prefix "Commons")))
    ≡ ok ("DAI" ∷ "WETH" ∷ [])
unfolding save_pool_tokens save_each save_tokens put get_prefix_by_asset_type get_symbols_by_prefix
    symbols_that includes without
saved_tokens = refl

get_sub_tokens_by_prefix-named_example :
    get_sub_tokens_by_prefix
      (named (get_prefix_by_asset_type "Commons" rs_token) deployed)
      (get_prefix_by_asset_type "Commons" rs_token)
    ≡ tokens_of deployed
get_sub_tokens_by_prefix-named_example =
    get_sub_tokens_by_prefix-named "Commons" rs_token deployed deployed-told_apart
