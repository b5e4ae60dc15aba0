-- ===== src/Ownership/Protocol.antt =====
-- What tasks/misc/transfer-protocol-ownership.ts and view-protocol-roles.ts call: the contracts that have
-- an owner or roles. They are a parameter, the record `Protocol`; `IsFaithful` is the documented
-- behaviour of OpenZeppelin's Ownable and AccessControl, that a mined call changes what it names, and
-- `KeepsRefused` that a refused call changes nothing.
use text.Mathlib.Text.{◌==◌ as str_eq}
use rasa_lending_platform_sm.Prelude.{
  ℕ, ◌≡◌, Bool, ◌&&◌, ◌||◌, not, true, String, Option, ◌==◌, if◌then◌else◌,
}
use rasa_lending_platform_sm.Scenario.Chain.{Receipt, Outcome, mined, refused}

pub data Ownable : Type 0 where
  provider registry gateway legacy_gateway emission_manager treasury_controller : Ownable
  swap_adapter repay_adapter : Ownable

pub data Role : Type 0 where
  default_admin pool_admin emergency_admin asset_listing_admin : Role

-- A contract that the tasks look up. The roles are those of `acl_manager`.
pub data Lookup : Type 0 where
  ownable : Ownable → Lookup
  acl_manager rewards_controller treasury_proxy : Lookup

-- What the contracts answer about owners and roles, with the addresses that the tasks compare: the
-- answers of `getProxyAdminBySlot`, of `getAddress` with the id of the incentives controller, and of
-- `EMISSION_MANAGER`, which a rewards controller before 3.0.1 does not have.
pub record View : Type 0 where
  pub owner : Ownable → String
  pub acl_admin : String
  pub has_role : Role → String → Bool
  pub treasury_proxy_admin : String
  pub incentives_controller : String
  pub rewards_emission_manager : Option String
  pub rewards_controller_address : String
  pub emission_manager_address : String

pub data RoleCall : Type 0 where
  grant : Role → String → RoleCall
  revoke : Role → String → RoleCall
  transfer_ownership : Ownable → String → RoleCall
  set_acl_admin : String → RoleCall

pub record Protocol : Type 1 where
  pub State : Type 0
  pub found : State → Lookup → Bool
  pub view : State → View
  -- The signer and the transaction.
  pub send : State → String → RoleCall → Outcome State

abbrev index_of_ownable : Ownable → ℕ
index_of_ownable Ownable.provider = 0
index_of_ownable Ownable.registry = 1
index_of_ownable Ownable.gateway = 2
index_of_ownable Ownable.emission_manager = 3
index_of_ownable Ownable.treasury_controller = 4
index_of_ownable Ownable.swap_adapter = 5
index_of_ownable Ownable.repay_adapter = 6
index_of_ownable Ownable.legacy_gateway = 7

abbrev pub same_ownable : Ownable → Ownable → Bool
same_ownable k l = index_of_ownable k == index_of_ownable l

abbrev index_of_role : Role → ℕ
index_of_role Role.default_admin = 0
index_of_role Role.pool_admin = 1
index_of_role Role.emergency_admin = 2
index_of_role Role.asset_listing_admin = 3

abbrev pub same_role : Role → Role → Bool
same_role r q = index_of_role r == index_of_role q

-- What a call does once it is mined.
abbrev pub apply : RoleCall → View → View
apply (RoleCall.grant role account) v = record v {
  has_role = λ r a. (same_role role r && str_eq account a) || v.has_role r a;
}
apply (RoleCall.revoke role account) v = record v {
  has_role = λ r a. not (same_role role r && str_eq account a) && v.has_role r a;
}
apply (RoleCall.transfer_ownership contract account) v = record v {
  owner = λ k. if same_ownable contract k then account else v.owner k;
}
apply (RoleCall.set_acl_admin account) v = record v { acl_admin = account }

abbrev pub IsFaithful : Protocol → Type 0
IsFaithful p =
    (s t : p.State) (signer : String) (call : RoleCall) (receipt : Receipt)
    → p.send s signer call ≡ mined receipt t
    → p.view t ≡ apply call (p.view s)

abbrev pub KeepsRefused : Protocol → Type 0
KeepsRefused p =
    (s t : p.State) (signer : String) (call : RoleCall) (reason : String)
    → p.send s signer call ≡ refused reason t
    → p.view t ≡ p.view s

-- Who may call: roles are the matter of the default admin, a contract that of its owner, and the ACL
-- admin that of the provider's owner.
abbrev pub is_authorised : View → String → RoleCall → Bool
is_authorised v signer (RoleCall.grant role account) = v.has_role Role.default_admin signer
is_authorised v signer (RoleCall.revoke role account) = v.has_role Role.default_admin signer
is_authorised v signer (RoleCall.transfer_ownership contract account) =
    str_eq (v.owner contract) signer
is_authorised v signer (RoleCall.set_acl_admin account) = str_eq (v.owner Ownable.provider) signer

-- A call by who may make it is mined.
abbrev pub Accepts : Protocol → Type 0
Accepts p =
    (s : p.State) (signer : String) (call : RoleCall)
    → is_authorised (p.view s) signer call ≡ true
    → (receipt : Receipt) × (t : p.State) × (p.send s signer call ≡ mined receipt t)
