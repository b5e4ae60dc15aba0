-- ===== src/Ownership/Unwaited.antt =====
-- What a call of tasks/misc/transfer-protocol-ownership.ts that is not waited for does, and all transfers.
use text.Mathlib.Text.{◌==◌ as str_eq}
use rasa_lending_platform_sm.Prelude.{
  ◌≡◌, refl, ap, ◌∙◌, Bool, true, false, ◌&&◌, String, if◌then◌else◌,
}
use rasa_lending_platform_sm.Prelude.Result.{Result, ok}
use rasa_lending_platform_sm.Scenario.Chain.{Outcome, mined, refused, ◌>>◌, continue-eq-ok}
use rasa_lending_platform_sm.Ownership.Protocol.{
  Ownable, Role, RoleCall, Protocol as Contracts, apply, IsFaithful, KeepsRefused,
}
use rasa_lending_platform_sm.Ownership.{
  Accounts, transact, send_unwaited, when, move_role, move_owner, move_acl_admin, transfer_all,
}
use rasa_lending_platform_sm.Ownership.Transfer.{
  moved_role, moved_owner, moved_acl_admin, WentThrough, contracts_moved, transferred, Refines,
  move_role-Refines, gateway-Refines,
}

module _ (p : Contracts) (faithful : IsFaithful p) (keeps : KeepsRefused p) where
  open p use {State, view, send}

  -- A call that is not waited for goes through, or changes nothing.
  when_unwaited :
      (b : Bool) (signer : String) (call : RoleCall) (s t : State)
      → when p b (send_unwaited p signer call) s ≡ ok (tt, t)
      → (went_through : Bool) × (view t
          ≡ (if went_through && b then apply call (view s) else view s))
  unfolding when send_unwaited
  when_unwaited false signer call s t e = let same : s ≡ t = cc in (false, rw (same) refl)
  when_unwaited true signer call s t e = by_outcome (send s signer call) refl e
    where
      by_outcome :
          (o : Outcome State)
          → send s signer call ≡ o
          → (elim o as (λ x. Result (Unit {0} × State)) [
            | mined receipt s' ↦ ok (tt, s')
            | refused reason s' ↦ ok (tt, s')
          ])
            ≡ ok (tt, t)
          → (went_through : Bool) × (view t
              ≡ (if went_through && true then apply call (view s) else view s))
      by_outcome (mined receipt s') sent e =
          let same : s' ≡ t = cc in (true, rw (← same) (faithful s s' signer call receipt sent))
      by_outcome (refused reason s') sent e =
          let same : s' ≡ t = cc in (false, rw (← same) (keeps s s' signer call reason sent))

  move_owner-unwaited :
      (signer : String) (contract : Ownable) (holder desired : String) (s t : State)
      → move_owner p (send_unwaited p) signer contract holder desired s ≡ ok (tt, t)
      → (went_through : Bool) × (view t ≡ moved_owner went_through contract holder desired (view s))
  unfolding move_owner
  move_owner-unwaited signer contract holder desired s t e =
      when_unwaited (str_eq ((view s).owner contract) holder) signer
        (RoleCall.transfer_ownership contract desired) s t e

  move_acl_admin-unwaited :
      (signer holder desired : String) (s t : State)
      → move_acl_admin p signer holder desired s ≡ ok (tt, t)
      → (went_through : Bool) × (view t ≡ moved_acl_admin went_through holder desired (view s))
  unfolding move_acl_admin
  move_acl_admin-unwaited signer holder desired s t e =
      when_unwaited (str_eq (view s).acl_admin holder) signer (RoleCall.set_acl_admin desired) s t e

  -- The transfers of the contracts, and the one of the default admin after them.
  contracts-moved :
      (a : Accounts) (d : String) (s t : State)
      → (do
        move_owner p (send_unwaited p) a.first_signer Ownable.provider a.pool_admin d
        move_owner p (send_unwaited p) a.first_signer Ownable.registry a.registry_owner d
        move_owner p (transact p) a.first_signer Ownable.gateway a.pool_admin d
        move_owner p (send_unwaited p) a.first_signer Ownable.emission_manager a.deployer d
        move_role p a.acl_admin Role.default_admin a.deployer d)
          s
        ≡ ok (tt, t)
      → (provider registry emission_manager : Bool) × (view t
          ≡ contracts_moved provider registry emission_manager a d (view s))
  unfolding Refines
  contracts-moved a d s t e =
      let (_, s1, e1, r1) =
        continue-eq-ok _
          (move_owner p (send_unwaited p) a.first_signer Ownable.provider a.pool_admin d s) e in
      let (_, s2, e2, r2) =
        continue-eq-ok _
          (move_owner p (send_unwaited p) a.first_signer Ownable.registry a.registry_owner d s1)
          r1 in
      let (_, s3, e3, r3) =
        continue-eq-ok _
          (move_owner p (transact p) a.first_signer Ownable.gateway a.pool_admin d s2) r2 in
      let (_, s4, e4, r4) =
        continue-eq-ok _
          (move_owner p (send_unwaited p) a.first_signer Ownable.emission_manager a.deployer d s3)
          r3 in
      let (w1, v1) = move_owner-unwaited a.first_signer Ownable.provider a.pool_admin d s s1 e1 in
      let (w2, v2) =
        move_owner-unwaited a.first_signer Ownable.registry a.registry_owner d s1 s2 e2 in
      let v3 = gateway-Refines p faithful a.first_signer Ownable.gateway a.pool_admin d s2 s3 e3 in
      let (w4, v4) =
        move_owner-unwaited a.first_signer Ownable.emission_manager a.deployer d s3 s4 e4 in
      let v5 = move_role-Refines p faithful a.acl_admin Role.default_admin a.deployer d s4 t r4 in
      let at_gateway =
        v3
        ∙ ap (moved_owner true Ownable.gateway a.pool_admin d)
            (v2 ∙ ap (moved_owner w2 Ownable.registry a.registry_owner d) v1) in
      (
        w1,
        w2,
        w4,
        v5
            ∙ ap (moved_role Role.default_admin a.deployer d)
                (v4 ∙ ap (moved_owner w4 Ownable.emission_manager a.deployer d) at_gateway),
      )

  pub transfer_all-transferred :
      (accounts : Accounts) (desired : String) (s t : State)
      → transfer_all p accounts desired s ≡ ok (tt, t)
      → (w : WentThrough) × (view t ≡ transferred w accounts desired (view s))
  unfolding transfer_all Refines
  transfer_all-transferred a d s t e =
      let (_, s1, e1, r1) =
        continue-eq-ok _ (move_role p a.acl_admin Role.emergency_admin a.emergency_admin d s) e in
      let (_, s2, e2, r2) =
        continue-eq-ok _ (move_role p a.acl_admin Role.pool_admin a.pool_admin d s1) r1 in
      let (_, s3, e3, r3) = continue-eq-ok _ (move_acl_admin p a.first_signer a.deployer d s2) r2 in
      let v1 =
        move_role-Refines p faithful a.acl_admin Role.emergency_admin a.emergency_admin d s s1 e1 in
      let v2 = move_role-Refines p faithful a.acl_admin Role.pool_admin a.pool_admin d s1 s2 e2 in
      let (w3, v3) = move_acl_admin-unwaited a.first_signer a.deployer d s2 s3 e3 in
      let (w4, w5, w7, rest) = contracts-moved a d s3 t r3 in
      let roles =
        v3
        ∙ ap (moved_acl_admin w3 a.deployer d)
            (v2 ∙ ap (moved_role Role.pool_admin a.pool_admin d) v1) in
      (
        record { set_acl_admin = w3; provider = w4; registry = w5; emission_manager = w7 },
        rest ∙ ap (contracts_moved w4 w5 w7 a d) roles,
      )
