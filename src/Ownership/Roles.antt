-- ===== src/Ownership/Roles.antt =====
-- tasks/misc/view-protocol-roles.ts: the table of who holds which role and owns which contract. What is
-- printed before the table is left out; it does not end the task.
use text.Mathlib.Text.{◌==◌ as str_eq}
use rasa_lending_platform_sm.Prelude.{
  not, ◌||◌, String, Option, none, some, List, [], ◌∷◌, ◌++◌, if◌then◌else◌,
}
use rasa_lending_platform_sm.Setup.{zero_address}
use rasa_lending_platform_sm.Scenario.Chain.{Run, pure, asks, continue, ◌>>=◌, ◌>>◌}
use rasa_lending_platform_sm.Prelude.Result.{ok}
use rasa_lending_platform_sm.Ownership.Protocol.{Ownable, Role, Lookup, View, Protocol as Contracts}
use rasa_lending_platform_sm.Ownership.{Accounts, Row, Ending, exit, report, look_up, look_up_all}

-- The sixteen rows of every market. The controller of emissions is there: the task throws without it.
unfoldable pub role_rows : Accounts → String → String → Ownable → View → List Row
role_rows accounts desired desired_emergency wrapped v =
    record {
      role = "PoolAddressesProvider owner";
      address = v.owner Ownable.provider;
      holds = str_eq (v.owner Ownable.provider) desired;
    }
    ∷ record {
      role = "PoolAddressesProviderRegistry owner";
      address = v.owner Ownable.registry;
      holds = str_eq (v.owner Ownable.registry) desired;
    }
    ∷ record {
      role = "AddressesProvider ACL Admin";
      address = v.acl_admin;
      holds = str_eq v.acl_admin desired;
    }
    ∷ record {
      role = "ACL Manager Default Admin role granted Multisig";
      address =
          if v.has_role Role.default_admin desired
          then desired
          else if v.has_role Role.default_admin accounts.deployer
          then accounts.deployer
          else "UNKNOWN";
      holds = v.has_role Role.default_admin desired;
    }
    ∷ record {
      role = "ACL Manager  Default Admin role revoked Deployer";
      address =
          if v.has_role Role.default_admin accounts.deployer then "NOT REVOKED" else "REVOKED";
      holds = not (v.has_role Role.default_admin accounts.deployer);
    }
    ∷ record {
      role = "WrappedTokenGateway owner";
      address = v.owner wrapped;
      holds = str_eq (v.owner wrapped) desired;
    }
    ∷ record {
      role = "PoolAdmin is multisig";
      address = if v.has_role Role.pool_admin desired then desired else zero_address;
      holds = v.has_role Role.pool_admin desired;
    }
    ∷ record {
      role = "Deployer revoked PoolAdmin";
      address = if v.has_role Role.pool_admin accounts.deployer then "NOT REVOKED" else "REVOKED";
      holds = not (v.has_role Role.pool_admin accounts.deployer);
    }
    ∷ record {
      role = "EmergencyAdmin";
      address =
          if v.has_role Role.emergency_admin desired_emergency
          then desired_emergency
          else accounts.emergency_admin;
      holds = v.has_role Role.emergency_admin desired_emergency;
    }
    ∷ record {
      role = "AssetListAdmin";
      address =
          if v.has_role Role.asset_listing_admin accounts.pool_admin
          then accounts.pool_admin
          else "DISABLED";
      holds = not (v.has_role Role.asset_listing_admin accounts.pool_admin);
    }
    ∷ record {
      role = "EmissionManager controller contract Owner";
      address = v.owner Ownable.emission_manager;
      holds = str_eq (v.owner Ownable.emission_manager) desired;
    }
    ∷ record {
      role = "Treasury Proxy Admin";
      address = v.treasury_proxy_admin;
      holds = str_eq v.treasury_proxy_admin desired;
    }
    ∷ record {
      role = "Treasury Controller owner";
      address = v.owner Ownable.treasury_controller;
      holds = str_eq (v.owner Ownable.treasury_controller) desired;
    }
    ∷ record {
      role = "PoolAddressesProvider.getAddress INCENTIVES_CONTROLLER";
      address = v.incentives_controller;
      holds = str_eq v.incentives_controller v.rewards_controller_address;
    }
    ∷ record {
      role = "ParaSwapRepayAdapter owner";
      address = v.owner Ownable.repay_adapter;
      holds = str_eq (v.owner Ownable.repay_adapter) desired;
    }
    ∷ record {
      role = "ParaSwapSwapAdapter owner";
      address = v.owner Ownable.swap_adapter;
      holds = str_eq (v.owner Ownable.swap_adapter) desired;
    }
    ∷ []

-- The last row, for a rewards controller that answers.
unfoldable pub emission_rows : View → List Row
emission_rows v = elim v.rewards_emission_manager as (λ _. List Row) [
  | none ↦ []
  | some manager ↦
      record {
        role = "Emission manager role at Rewards Controller";
        address = manager;
        holds = str_eq manager v.emission_manager_address;
      }
      ∷ []
]

-- The contracts that the task looks up before the gateway, and after it.
abbrev pub first_lookups : List Lookup
first_lookups =
    Lookup.ownable Ownable.provider
    ∷ Lookup.rewards_controller
    ∷ Lookup.ownable Ownable.emission_manager
    ∷ Lookup.ownable Ownable.registry
    ∷ Lookup.acl_manager
    ∷ Lookup.treasury_proxy
    ∷ Lookup.ownable Ownable.treasury_controller
    ∷ []

abbrev pub last_lookups : List Lookup
last_lookups = Lookup.ownable Ownable.swap_adapter ∷ Lookup.ownable Ownable.repay_adapter ∷ []

module _ (p : Contracts) where
  open p use {State, found, view}

  -- The gateway, or the one of old deployments.
  unfoldable pub look_up_gateway : Run State Ownable
  look_up_gateway s =
      if found s (Lookup.ownable Ownable.gateway)
      then ok (Ownable.gateway, s)
      else continue (λ _. pure Ownable.legacy_gateway)
          (look_up p (Lookup.ownable Ownable.legacy_gateway) s)

  unfoldable pub view_roles : Accounts → String → String → Run State Ending
  view_roles accounts desired desired_emergency = do
    look_up_all p first_lookups
    wrapped ← look_up_gateway
    look_up_all p last_lookups
    asks (λ s.
        report
          (role_rows accounts desired desired_emergency wrapped (view s) ++ emission_rows (view s)))

  -- The task: without the address of a desired admin, it leaves the process.
  unfoldable pub view_protocol_roles : Accounts → Option String → Option String → Run State Ending
  view_protocol_roles accounts desired desired_emergency = elim desired as (λ _. Run State Ending) [
    | none ↦ pure (exit 403)
    | some admin ↦ elim desired_emergency as (λ _. Run State Ending) [
      | none ↦ pure (exit 403)
      | some emergency ↦
          if str_eq admin "" || str_eq emergency ""
          then pure (exit 403)
          else view_roles accounts admin emergency
    ]
  ]
