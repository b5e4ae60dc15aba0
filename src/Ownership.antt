-- ===== src/Ownership.antt =====
-- tasks/misc/transfer-protocol-ownership.ts: the deployer's accounts hand over their roles and contracts
-- to the desired admin. A transaction that the task sends without waiting for it is settled before the
-- next answer is read, and the task does not notice if it is refused. What is printed is left out, but for
-- the table at the end.
pub mod Protocol
pub mod Roles
pub mod Transfer
pub mod Unwaited
pub mod Admins
pub mod Completion
pub mod Handover
pub mod Frame
pub mod Decision
pub mod Runs
mod Examples
use text.Mathlib.Text.{◌==◌ as str_eq}
use rasa_lending_platform_sm.Prelude.{
  ℕ, Bool, not, String, Option, none, some, List, [], ◌∷◌, if◌then◌else◌,
}
use rasa_lending_platform_sm.Prelude.Result.{Result, ok, err, reverted, missing_deployment}
use rasa_lending_platform_sm.Scenario.Chain.{
  Run, mined, refused, pure, asks, throw, continue, ◌>>=◌, ◌>>◌,
}
use rasa_lending_platform_sm.Ownership.Protocol.{
  Ownable, Role, Lookup, View, RoleCall, Protocol as Contracts,
}

-- `hre.getNamedAccounts()`, with the first signer, by whom the contracts are called that the task does
-- not connect to another.
pub record Accounts : Type 0 where
  pub pool_admin : String
  pub acl_admin : String
  pub deployer : String
  pub emergency_admin : String
  pub registry_owner : String
  pub first_signer : String

-- A row of the table that the task prints: a role, an address or a remark, and the check of it.
pub record Row : Type 0 where
  pub role : String
  pub address : String
  pub holds : Bool

-- The task leaves the process with a code, or prints its table.
pub data Ending : Type 0 where
  exit : ℕ → Ending
  report : List Row → Ending

-- The table at the end of the task.
unfoldable pub transfer_rows : Accounts → String → View → List Row
transfer_rows accounts desired v =
    record {
      role = "PoolAdmin";
      address = if v.has_role Role.pool_admin desired then desired else accounts.pool_admin;
      holds = v.has_role Role.pool_admin desired;
    }
    ∷ record {
      role = "PoolAddressesProvider owner";
      address = v.owner Ownable.provider;
      holds = str_eq (v.owner Ownable.provider) desired;
    }
    ∷ record {
      role = "WrappedTokenGateway owner";
      address = v.owner Ownable.gateway;
      holds = str_eq (v.owner Ownable.gateway) desired;
    }
    ∷ record {
      role = "EmissionManager owner";
      address = v.owner Ownable.emission_manager;
      holds = str_eq (v.owner Ownable.emission_manager) desired;
    }
    ∷ record {
      role = "ACL Default Admin role revoked Deployer";
      address =
          if v.has_role Role.default_admin accounts.deployer then "NOT REVOKED" else "REVOKED";
      holds = not (v.has_role Role.default_admin accounts.deployer);
    }
    ∷ record {
      role = "ACL Default Admin role granted Multisig";
      address =
          if v.has_role Role.default_admin desired
          then desired
          else if v.has_role Role.default_admin accounts.deployer
          then accounts.deployer
          else "UNKNOWN";
      holds = v.has_role Role.default_admin desired;
    }
    ∷ []

-- The contracts that the task looks up, in its order. The two adapters are not transferred.
abbrev pub transfer_lookups : List Lookup
transfer_lookups =
    Lookup.ownable Ownable.provider
    ∷ Lookup.ownable Ownable.registry
    ∷ Lookup.ownable Ownable.gateway
    ∷ Lookup.acl_manager
    ∷ Lookup.ownable Ownable.emission_manager
    ∷ Lookup.ownable Ownable.swap_adapter
    ∷ Lookup.ownable Ownable.repay_adapter
    ∷ []

module _ (p : Contracts) where
  open p use {State, found, view, send}

  unfoldable pub look_up : Lookup → Run State (Unit {0})
  look_up contract s = if found s contract then ok (tt, s) else err missing_deployment

  unfoldable pub transact : String → RoleCall → Run State (Unit {0})
  transact signer call s = elim (send s signer call) [
    | mined receipt s' ↦ ok (tt, s')
    | refused reason s' ↦ err reverted
  ]

  -- A transaction that is sent and not waited for.
  unfoldable pub send_unwaited : String → RoleCall → Run State (Unit {0})
  send_unwaited signer call s = elim (send s signer call) [
    | mined receipt s' ↦ ok (tt, s')
    | refused reason s' ↦ ok (tt, s')
  ]

  unfoldable pub when : Bool → Run State (Unit {0}) → Run State (Unit {0})
  when test body = if test then body else pure tt

  -- A role goes from its holder to the desired admin, who gets it first.
  unfoldable pub move_role : String → Role → String → String → Run State (Unit {0})
  move_role signer role holder desired = do
    held ← asks (λ s. (view s).has_role role holder)
    when held (do
      transact signer (RoleCall.grant role desired)
      transact signer (RoleCall.revoke role holder))

  -- A contract goes from its owner to the desired admin, by a transaction that is waited for or not.
  unfoldable pub move_owner :
      (String → RoleCall → Run State (Unit {0}))
      → String
      → Ownable
      → String
      → String
      → Run State (Unit {0})
  move_owner submit signer contract holder desired = do
    owned ← asks (λ s. str_eq ((view s).owner contract) holder)
    when owned (submit signer (RoleCall.transfer_ownership contract desired))

  unfoldable pub move_acl_admin : String → String → String → Run State (Unit {0})
  move_acl_admin signer holder desired = do
    held ← asks (λ s. str_eq (view s).acl_admin holder)
    when held (send_unwaited signer (RoleCall.set_acl_admin desired))

  -- The transfers, in their order.
  unfoldable pub transfer_all : Accounts → String → Run State (Unit {0})
  transfer_all accounts desired = do
    move_role accounts.acl_admin Role.emergency_admin accounts.emergency_admin desired
    move_role accounts.acl_admin Role.pool_admin accounts.pool_admin desired
    move_acl_admin accounts.first_signer accounts.deployer desired
    move_owner send_unwaited accounts.first_signer Ownable.provider accounts.pool_admin desired
    move_owner send_unwaited accounts.first_signer Ownable.registry accounts.registry_owner desired
    move_owner transact accounts.first_signer Ownable.gateway accounts.pool_admin desired
    move_owner send_unwaited accounts.first_signer Ownable.emission_manager accounts.deployer
        desired
    move_role accounts.acl_admin Role.default_admin accounts.deployer desired

  unfoldable pub look_up_all : List Lookup → Run State (Unit {0})
  look_up_all [] = pure tt
  look_up_all (contract ∷ contracts) = do look_up contract; look_up_all contracts

  -- The task once the desired admin is known: a market that is transferred already, or that belongs to
  -- another account, ends it.
  unfoldable pub transfer_to : Accounts → String → Run State Ending
  transfer_to accounts desired = do
    look_up_all transfer_lookups
    owner ← asks (λ s. (view s).owner Ownable.provider)
    if str_eq owner desired
        then pure (exit 0)
        else if str_eq owner accounts.pool_admin
        then (do
          transfer_all accounts desired
          asks (λ s. report (transfer_rows accounts desired (view s))))
        else pure (exit 403)

  unfoldable pub transfer_protocol_ownership : Accounts → Option String → Run State Ending
  transfer_protocol_ownership accounts none = pure (exit 403)
  transfer_protocol_ownership accounts (some desired) =
      if str_eq desired "" then pure (exit 403) else transfer_to accounts desired
