-- ===== src/Ownership/Completion.antt =====
-- What tasks/misc/transfer-protocol-ownership.ts comes to when its signers may make its calls.
use text.Mathlib.Text.{◌==◌ as str_eq}
use rasa_lending_platform_sm.Prelude.{
  ◌≡◌, refl, sym, subst, ap, ◌∙◌, Bool, ◌&&◌, true, false, String, if◌then◌else◌,
}
use rasa_lending_platform_sm.Prelude.Result.{ok}
use rasa_lending_platform_sm.Scenario.Chain.{Run, ◌>>◌}
use rasa_lending_platform_sm.Ownership.Protocol.{
  Ownable, Role, View, RoleCall, Protocol as Contracts, apply, same_role, is_authorised, IsFaithful,
  Accepts,
}
use rasa_lending_platform_sm.Ownership.{
  Accounts, transact, send_unwaited, when, move_role, move_owner, move_acl_admin, transfer_all,
}
use rasa_lending_platform_sm.Ownership.Transfer.{
  moved_role, moved_owner, moved_acl_admin, all_of_them, transferred,
}
use rasa_lending_platform_sm.Ownership.Admins.{
  IsRoleAdmin, IsMarketAdmin, or_true, moved_acl_admin-IsRoleAdmin, moved_owner-IsRoleAdmin,
  moved_role-IsMarketAdmin,
}

-- The accounts of a market that `owner` deployed. By default, all accounts are the first one
-- (helpers/constants.ts, `DEFAULT_NAMED_ACCOUNTS`).
abbrev pub deployed_by : String → String → String → Accounts
deployed_by owner acl_admin emergency_admin = record {
  pool_admin = owner;
  acl_admin = acl_admin;
  deployer = owner;
  emergency_admin = emergency_admin;
  registry_owner = owner;
  first_signer = owner;
}

module _ (p : Contracts) (faithful : IsFaithful p) (accepts : Accepts p) where
  open p use {State, view, send}

  -- A run from a state whose answers have a property ends, and changes the answers as `f` does.
  unfoldable pub Ends : (View → Type 0) → Run State (Unit {0}) → (View → View) → Type 0
  Ends P m f = (s : State) → P (view s) → (t : State) × (m s ≡ ok (tt, t)) × (view t ≡ f (view s))

  MayCall : String → RoleCall → View → Type 0
  MayCall signer call v = is_authorised v signer call ≡ true

  transact-Ends :
      (signer : String) (call : RoleCall)
      → Ends (MayCall signer call) (transact p signer call) (apply call)
  unfolding Ends transact MayCall
  transact-Ends signer call s may =
      let (receipt, t, sent) = accepts s signer call may in
      (t, rw (sent, transact) refl, faithful s t signer call receipt sent)

  send_unwaited-Ends :
      (signer : String) (call : RoleCall)
      → Ends (MayCall signer call) (send_unwaited p signer call) (apply call)
  unfolding Ends send_unwaited MayCall
  send_unwaited-Ends signer call s may =
      let (receipt, t, sent) = accepts s signer call may in
      (t, rw (sent, send_unwaited) refl, faithful s t signer call receipt sent)

  >>-Ends :
      (P Q : View → Type 0) (m k : Run State (Unit {0})) (f g : View → View)
      → ((v : View) → P v → Q (f v))
      → Ends P m f
      → Ends Q k g
      → Ends P (m >> k) (λ v. g (f v))
  unfolding Ends
  >>-Ends P Q m k f g keeps first second s h =
      let (u, before, one) = first s h in
      let (t, after, two) = second u (subst Q (sym one) (keeps (view s) h)) in
      (t, rw (before) after, two ∙ ap g one)

  when-Ends :
      (b : Bool) (m : Run State (Unit {0})) (f : View → View) (s : State)
      → (b ≡ true → (t : State) × (m s ≡ ok (tt, t)) × (view t ≡ f (view s)))
      → (t : State) × (when p b m s ≡ ok (tt, t)) × (view t ≡ (if b then f (view s) else view s))
  unfolding when
  when-Ends true m f s ends = ends refl
  when-Ends false m f s ends = (s, refl, refl)

  move_role-Ends :
      (signer : String) (role : Role) (holder desired : String)
      → Ends
          (IsRoleAdmin signer)
          (move_role p signer role holder desired)
          (moved_role role holder desired)
  unfolding Ends move_role MayCall
  move_role-Ends signer role holder desired s h =
      when-Ends ((view s).has_role role holder) _
        (λ v. apply (RoleCall.revoke role holder) (apply (RoleCall.grant role desired) v)) s
        (λ _.
          >>-Ends (IsRoleAdmin signer) (IsRoleAdmin signer)
            (transact p signer (RoleCall.grant role desired))
            (transact p signer (RoleCall.revoke role holder)) (apply (RoleCall.grant role desired))
            (apply (RoleCall.revoke role holder))
            (λ v. or_true (same_role role Role.default_admin && str_eq desired signer) _)
            (transact-Ends signer (RoleCall.grant role desired))
            (transact-Ends signer (RoleCall.revoke role holder)) s h)

  -- The owner may transfer its contract.
  move_owner-Ends :
      (P : View → Type 0) (submit : String → RoleCall → Run State (Unit {0}))
      → ((signer : String) (call : RoleCall)
          → Ends (MayCall signer call) (submit signer call) (apply call))
      → (contract : Ownable) (holder desired : String)
      → Ends P
          (move_owner p submit holder contract holder desired)
          (moved_owner true contract holder desired)
  unfolding Ends move_owner MayCall
  move_owner-Ends P submit submits contract holder desired s _ =
      when-Ends (str_eq ((view s).owner contract) holder) _
        (apply (RoleCall.transfer_ownership contract desired)) s
        (submits holder (RoleCall.transfer_ownership contract desired) s)

  move_acl_admin-Ends :
      (account holder desired : String)
      → Ends
          (IsMarketAdmin account holder)
          (move_acl_admin p holder holder desired)
          (moved_acl_admin true holder desired)
  unfolding Ends move_acl_admin MayCall
  move_acl_admin-Ends account holder desired s (_, owned) =
      when-Ends (str_eq (view s).acl_admin holder) _ (apply (RoleCall.set_acl_admin desired)) s
        (λ _. send_unwaited-Ends holder (RoleCall.set_acl_admin desired) s owned)

  weaker-Ends :
      (P Q : View → Type 0) (m : Run State (Unit {0})) (f : View → View)
      → ((v : View) → P v → Q v)
      → Ends Q m f
      → Ends P m f
  unfolding Ends
  weaker-Ends P Q m f weaker ends s h = ends s (weaker (view s) h)

  -- The transfers of the contracts, which leave the default admin.
  contracts-End :
      (submit : String → RoleCall → Run State (Unit {0}))
      → ((signer : String) (call : RoleCall)
          → Ends (MayCall signer call) (submit signer call) (apply call))
      → (o c d : String) (contract : Ownable) (k : Run State (Unit {0})) (g : View → View)
      → Ends (IsRoleAdmin c) k g
      → Ends
          (IsRoleAdmin c)
          (move_owner p submit o contract o d >> k)
          (λ v. g (moved_owner true contract o d v))
  contracts-End submit submits o c d contract k g =
      >>-Ends (IsRoleAdmin c) (IsRoleAdmin c) (move_owner p submit o contract o d) k
        (moved_owner true contract o d) g (moved_owner-IsRoleAdmin c contract o d)
        (move_owner-Ends (IsRoleAdmin c) submit submits contract o d)

  -- The transfer of a role other than the default admin's.
  role-Ends :
      (o c holder d : String) (role : Role) (k : Run State (Unit {0})) (g : View → View)
      → same_role role Role.default_admin ≡ false
      → Ends (IsMarketAdmin c o) k g
      → Ends
          (IsMarketAdmin c o)
          (move_role p c role holder d >> k)
          (λ v. g (moved_role role holder d v))
  role-Ends o c holder d role k g other =
      >>-Ends (IsMarketAdmin c o) (IsMarketAdmin c o) (move_role p c role holder d) k
        (moved_role role holder d) g (λ v. moved_role-IsMarketAdmin c o role holder d v other)
        (weaker-Ends (IsMarketAdmin c o) (IsRoleAdmin c) (move_role p c role holder d)
          (moved_role role holder d) (λ v h. h.0) (move_role-Ends c role holder d))

  pub transfer_all-Ends :
      (o c e d : String)
      → Ends
          (IsMarketAdmin c o)
          (transfer_all p (deployed_by o c e) d)
          (transferred all_of_them (deployed_by o c e) d)
  unfolding transfer_all
  transfer_all-Ends o c e d = role-Ends o c e d Role.emergency_admin _ _ refl (
      role-Ends o c o d Role.pool_admin _ _ refl (
        >>-Ends (IsMarketAdmin c o) (IsRoleAdmin c) (move_acl_admin p o o d) _
          (moved_acl_admin true o d) _ (λ v h. moved_acl_admin-IsRoleAdmin c o d v h.0)
          (move_acl_admin-Ends c o d)
          (contracts-End (send_unwaited p) send_unwaited-Ends o c d Ownable.provider _ _ (
            contracts-End (send_unwaited p) send_unwaited-Ends o c d Ownable.registry _ _ (
              contracts-End (transact p) transact-Ends o c d Ownable.gateway _ _ (
                contracts-End (send_unwaited p) send_unwaited-Ends o c d Ownable.emission_manager _
                  _ (move_role-Ends c Role.default_admin o d)))))))
