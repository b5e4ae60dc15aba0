-- ===== src/Ownership/Transfer.antt =====
-- What tasks/misc/transfer-protocol-ownership.ts does to owners and roles.
use text.Mathlib.Text.{◌==◌ as str_eq}
use rasa_lending_platform_sm.Prelude.{◌≡◌, refl, Bool, true, false, ◌&&◌, String, if◌then◌else◌}
use rasa_lending_platform_sm.Prelude.Result.{Result, ok, err, reverted}
use rasa_lending_platform_sm.Scenario.Chain.{Run, Outcome, mined, refused, ◌>>◌, continue-eq-ok}
use rasa_lending_platform_sm.Ownership.Protocol.{
  Ownable, Role, View, RoleCall, Protocol as Contracts, apply, IsFaithful,
}
use rasa_lending_platform_sm.Ownership.{Accounts, transact, when, move_role, move_owner}

-- The moves, on what the contracts answer.
abbrev pub moved_role : Role → String → String → View → View
moved_role role holder desired v =
    if v.has_role role holder
    then apply (RoleCall.revoke role holder) (apply (RoleCall.grant role desired) v)
    else v

-- A call that is not waited for may have been refused.
abbrev pub moved_owner : Bool → Ownable → String → String → View → View
moved_owner went_through contract holder desired v =
    if went_through && str_eq (v.owner contract) holder
    then apply (RoleCall.transfer_ownership contract desired) v
    else v

abbrev pub moved_acl_admin : Bool → String → String → View → View
moved_acl_admin went_through holder desired v =
    if went_through && str_eq v.acl_admin holder
    then apply (RoleCall.set_acl_admin desired) v
    else v

-- Which of the calls that are not waited for went through.
pub record WentThrough : Type 0 where
  pub set_acl_admin : Bool
  pub provider : Bool
  pub registry : Bool
  pub emission_manager : Bool

abbrev pub all_of_them : WentThrough
all_of_them = record {
  set_acl_admin = true;
  provider = true;
  registry = true;
  emission_manager = true;
}

-- The transfers of the contracts, and the one of the default admin, the last one outermost.
abbrev pub contracts_moved : Bool → Bool → Bool → Accounts → String → View → View
contracts_moved provider registry emission_manager accounts desired v =
    moved_role Role.default_admin accounts.deployer desired (
      moved_owner emission_manager Ownable.emission_manager accounts.deployer desired (
        moved_owner true Ownable.gateway accounts.pool_admin desired (
          moved_owner registry Ownable.registry accounts.registry_owner desired
            (moved_owner provider Ownable.provider accounts.pool_admin desired v))))

-- All transfers.
abbrev pub transferred : WentThrough → Accounts → String → View → View
transferred w accounts desired v =
    contracts_moved w.provider w.registry w.emission_manager accounts desired (
      moved_acl_admin w.set_acl_admin accounts.deployer desired (
        moved_role Role.pool_admin accounts.pool_admin desired
          (moved_role Role.emergency_admin accounts.emergency_admin desired v)))

module _ (p : Contracts) where
  open p use {State, found, view, send}

  -- A run that ends changes the answers as `f` does.
  unfoldable pub Refines : Run State (Unit {0}) → (View → View) → Type 0
  Refines m f = (s t : State) → m s ≡ ok (tt, t) → view t ≡ f (view s)

  module _ (faithful : IsFaithful p) where
    transact-Refines :
        (signer : String) (call : RoleCall) → Refines (transact p signer call) (apply call)
    unfolding Refines transact
    transact-Refines signer call s t = by_outcome (send s signer call) refl
      where
        by_outcome :
            (o : Outcome State)
            → send s signer call ≡ o
            → (elim o as (λ x. Result (Unit {0} × State)) [
              | mined receipt s' ↦ ok (tt, s')
              | refused reason s' ↦ err reverted
            ])
              ≡ ok (tt, t)
            → view t ≡ apply call (view s)
        by_outcome (mined receipt s') sent e =
            let same : s' ≡ t = cc in rw (← same) (faithful s s' signer call receipt sent)
        by_outcome (refused reason s') sent e = cc

    >>-Refines :
        (m k : Run State (Unit {0})) (f g : View → View)
        → Refines m f
        → Refines k g
        → Refines (m >> k) (λ v. g (f v))
    unfolding Refines
    >>-Refines m k f g first second s t e =
        let (_, u, before, after) = continue-eq-ok (λ _. k) (m s) e in
        let one : view u ≡ f (view s) = first s u before in
        let two : view t ≡ g (view u) = second u t after in rw (two, one) refl

    when-Refines :
        (b : Bool) (m : Run State (Unit {0})) (f : View → View) (s t : State)
        → Refines m f
        → when p b m s ≡ ok (tt, t)
        → view t ≡ (if b then f (view s) else view s)
    unfolding when Refines
    when-Refines true m f s t r e = r s t e
    when-Refines false m f s t r e = let same : s ≡ t = cc in rw (same) refl

    pub move_role-Refines :
        (signer : String) (role : Role) (holder desired : String)
        → Refines (move_role p signer role holder desired) (moved_role role holder desired)
    unfolding Refines move_role
    move_role-Refines signer role holder desired s t e =
        when-Refines ((view s).has_role role holder) _
          (λ v. apply (RoleCall.revoke role holder) (apply (RoleCall.grant role desired) v)) s t
          (>>-Refines (transact p signer (RoleCall.grant role desired))
            (transact p signer (RoleCall.revoke role holder)) (apply (RoleCall.grant role desired))
            (apply (RoleCall.revoke role holder))
            (transact-Refines signer (RoleCall.grant role desired))
            (transact-Refines signer (RoleCall.revoke role holder)))
          e

    pub gateway-Refines :
        (signer : String) (contract : Ownable) (holder desired : String)
        → Refines
            (move_owner p (transact p) signer contract holder desired)
            (moved_owner true contract holder desired)
    unfolding Refines move_owner
    gateway-Refines signer contract holder desired s t e =
        when-Refines (str_eq ((view s).owner contract) holder) _
          (apply (RoleCall.transfer_ownership contract desired)) s t
          (transact-Refines signer (RoleCall.transfer_ownership contract desired)) e
