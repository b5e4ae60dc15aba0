-- ===== src/Setup/Deployments.antt =====
-- What helpers/init-helpers.ts calls: the deployments of hardhat and the deployed contracts. They are
-- a parameter, the record `Market`.
use rasa_lending_platform_sm.Prelude.{Bool, String, Option, List}
use rasa_lending_platform_sm.Prelude.Int.{ℤ}
use rasa_lending_platform_sm.Scenario.Chain.{Outcome}

-- The deployments that are looked up. Their names depend on the market's name.
pub data Deployed : Type 0 where
  addresses_provider pool_impl l2_pool_impl acl_manager configurator_proxy configurator_impl :
      Deployed
  stable_debt_token_impl variable_debt_token_impl rs_token_impl delegation_aware_impl : Deployed
  reserves_setup_helper pool_data_provider registry : Deployed
  reserve_strategy : String → Deployed

-- An element of `initInputParams`. The names and symbols of the tokens are texts around the symbol.
pub record InitInput : Type 0 where
  pub rs_token_impl : String
  pub stable_debt_token_impl : String
  pub variable_debt_token_impl : String
  pub underlying_asset_decimals : ℤ
  pub interest_rate_strategy_address : String
  pub underlying_asset : String
  pub treasury : String
  pub incentives_controller : String
  pub underlying_asset_name : String
  pub rs_token_name : String
  pub rs_token_symbol : String
  pub variable_debt_token_name : String
  pub variable_debt_token_symbol : String
  pub stable_debt_token_name : String
  pub stable_debt_token_symbol : String
  pub params : String

-- An element of `inputParams` of the configuration.
pub record ConfigureInput : Type 0 where
  pub asset : String
  pub base_ltv : ℤ
  pub liquidation_threshold : ℤ
  pub liquidation_bonus : ℤ
  pub reserve_factor : ℤ
  pub borrow_cap : ℤ
  pub supply_cap : ℤ
  pub stable_borrowing_enabled : Bool
  pub borrowing_enabled : Bool
  pub flash_loan_enabled : Bool

-- A transaction. The first argument is the contract that gets it.
pub data SetupCall : Type 0 where
  init_reserves : String → List InitInput → SetupCall
  add_risk_admin : String → String → SetupCall
  configure_reserves : String → String → List ConfigureInput → SetupCall
  remove_risk_admin : String → String → SetupCall
  register_addresses_provider : String → String → ℤ → SetupCall

pub record Market : Type 1 where
  pub State : Type 0
  pub deployed : State → Deployed → Option String
  -- The RS token of a reserve, and whether a reserve is enabled as collateral.
  pub rs_token_of : State → String → String
  pub used_as_collateral : State → String → Bool
  -- The admin and the configurator that the addresses provider knows, and the owner of the registry.
  pub acl_admin : State → String → String
  pub pool_configurator : State → String → String
  pub acl_manager_of : State → String → String
  pub registry_owner : State → String → String
  pub deployer : String
  pub send : State → String → SetupCall → Outcome State
  pub is_valid_address : String → Bool
