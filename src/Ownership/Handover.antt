-- ===== src/Ownership/Handover.antt =====
-- What tasks/misc/transfer-protocol-ownership.ts hands over, as tasks/misc/view-protocol-roles.ts shows it.
use text.Mathlib.Text.{◌==◌ as str_eq}
use text.Mathlib.TextEquality.{eq_iff}
use rasa_lending_platform_sm.Prelude.{
  ◌≡◌, refl, ap, ◌∙◌, Bool, true, false, ◌||◌, ◌&&◌, not, String, some, List, [], ◌∷◌, ◌++◌, map,
  if◌then◌else◌,
}
use rasa_lending_platform_sm.Prelude.Result.{ok}
use rasa_lending_platform_sm.Ownership.Protocol.{
  Ownable, Role, Lookup, View, RoleCall, Protocol as Contracts, apply, IsFaithful, Accepts,
}
use rasa_lending_platform_sm.Ownership.{Accounts, Row, report, transfer_protocol_ownership}
use rasa_lending_platform_sm.Ownership.Roles.{
  role_rows, emission_rows, first_lookups, last_lookups, look_up_gateway, view_roles,
  view_protocol_roles,
}
use rasa_lending_platform_sm.Ownership.Runs.{transfer_moves}
use rasa_lending_platform_sm.Ownership.Decision.{look_up_all-found, address_of}
use rasa_lending_platform_sm.Ownership.Transfer.{
  moved_role, moved_owner, moved_acl_admin, all_of_them, transferred,
}
use rasa_lending_platform_sm.Ownership.Completion.{deployed_by}
use rasa_lending_platform_sm.Ownership.Admins.{IsRoleAdmin}

-- The deployer holds what it got when it deployed the market.
pub record IsDeployed (owner emergency_admin : String) (v : View) : Type 0 where
  pub provider_owned : str_eq (v.owner Ownable.provider) owner ≡ true
  pub registry_owned : str_eq (v.owner Ownable.registry) owner ≡ true
  pub gateway_owned : str_eq (v.owner Ownable.gateway) owner ≡ true
  pub emission_manager_owned : str_eq (v.owner Ownable.emission_manager) owner ≡ true
  pub acl_admin_held : str_eq v.acl_admin owner ≡ true
  pub default_admin_held : v.has_role Role.default_admin owner ≡ true
  pub pool_admin_held : v.has_role Role.pool_admin owner ≡ true
  pub emergency_admin_held : v.has_role Role.emergency_admin emergency_admin ≡ true

-- All transfers, each of what was held.
abbrev pub handed_over : String → String → String → View → View
handed_over o e d v = apply (RoleCall.revoke Role.default_admin o) (
    apply (RoleCall.grant Role.default_admin d) (
      apply (RoleCall.transfer_ownership Ownable.emission_manager d) (
        apply (RoleCall.transfer_ownership Ownable.gateway d) (
          apply (RoleCall.transfer_ownership Ownable.registry d) (
            apply (RoleCall.transfer_ownership Ownable.provider d) (
              apply (RoleCall.set_acl_admin d) (
                apply (RoleCall.revoke Role.pool_admin o) (
                  apply (RoleCall.grant Role.pool_admin d) (
                    apply (RoleCall.revoke Role.emergency_admin e)
                      (apply (RoleCall.grant Role.emergency_admin d) v))))))))))

taken : {v : View} (w : View) (b : Bool) → b ≡ true → (if b then v else w) ≡ v
taken w true h = refl
taken w false h = cc

along : (f : View → View) {u v w : View} → u ≡ v → f v ≡ w → f u ≡ w
along f p q = ap f p ∙ q

transferred-IsDeployed :
    (o c e d : String) (v : View)
    → IsDeployed o e v
    → transferred all_of_them (deployed_by o c e) d v ≡ handed_over o e d v
transferred-IsDeployed o c e d v h =
    along (moved_role Role.default_admin o d)
      (along (moved_owner true Ownable.emission_manager o d)
        (along (moved_owner true Ownable.gateway o d)
          (along (moved_owner true Ownable.registry o d)
            (along (moved_owner true Ownable.provider o d)
              (along (moved_acl_admin true o d)
                (along (moved_role Role.pool_admin o d)
                  (taken _ (v.has_role Role.emergency_admin e) h.emergency_admin_held)
                  (taken _ (v.has_role Role.pool_admin o) h.pool_admin_held))
                (taken _ (str_eq v.acl_admin o) h.acl_admin_held))
              (taken _ (str_eq (v.owner Ownable.provider) o) h.provider_owned))
            (taken _ (str_eq (v.owner Ownable.registry) o) h.registry_owned))
          (taken _ (str_eq (v.owner Ownable.gateway) o) h.gateway_owned))
        (taken _ (str_eq (v.owner Ownable.emission_manager) o) h.emission_manager_owned))
      (taken _ (v.has_role Role.default_admin o) h.default_admin_held)

-- The checks of the first sixteen rows after all that was held is handed over. The emergency admin that
-- the table looks for is `x`.
abbrev pub checks_after : String → String → String → String → View → List Bool
checks_after o e d x v =
    true
    ∷ true
    ∷ true
    ∷ true
    ∷ true
    ∷ true
    ∷ true
    ∷ true
    ∷ (not (str_eq e x) && (str_eq d x || v.has_role Role.emergency_admin x))
    ∷ not (v.has_role Role.asset_listing_admin o)
    ∷ true
    ∷ str_eq v.treasury_proxy_admin d
    ∷ str_eq (v.owner Ownable.treasury_controller) d
    ∷ str_eq v.incentives_controller v.rewards_controller_address
    ∷ str_eq (v.owner Ownable.repay_adapter) d
    ∷ str_eq (v.owner Ownable.swap_adapter) d
    ∷ []

role_rows-handed_over :
    (o c e d x : String) (v : View)
    → str_eq o d ≡ false
    → map Row.holds (role_rows (deployed_by o c e) d x Ownable.gateway (handed_over o e d v))
      ≡ checks_after o e d x v
unfolding role_rows
role_rows-handed_over o c e d x v other =
    let self : (s : String) → str_eq s s ≡ true = λ s. (eq_iff s s).1 refl in
    rw (self d, self o, other) refl

emission_rows-handed_over :
    (o e d : String) (v : View) → emission_rows (handed_over o e d v) ≡ emission_rows v
unfolding emission_rows
emission_rows-handed_over o e d v = refl

map-++ : {A B : Type 0} (f : A → B) (xs ys : List A) → map f (xs ++ ys) ≡ map f xs ++ map f ys
map-++ f [] ys = refl
map-++ f (x ∷ xs) ys = ap (λ zs. f x ∷ zs) (map-++ f xs ys)

module _ (p : Contracts) where
  open p use {State, found, view}

  -- The task on a market whose contracts are all deployed.
  view_protocol_roles-found :
      (accounts : Accounts) (d x : String) (s : State)
      → ((k : Lookup) → found s k ≡ true)
      → str_eq d "" ≡ false
      → str_eq x "" ≡ false
      → view_protocol_roles p accounts (some d) (some x) s
        ≡ ok (report (role_rows accounts d x Ownable.gateway (view s) ++ emission_rows (view s)), s)
  unfolding view_protocol_roles view_roles look_up_gateway
  view_protocol_roles-found accounts d x s all given given' =
      rw
        (
          given,
          given',
          look_up_all-found p first_lookups s all,
          all (Lookup.ownable Ownable.gateway),
          look_up_all-found p last_lookups s all,
        )
        refl

  -- The contracts do what a mined call says and mine every call of who may make it;
  -- `transfer-protocol-ownership` got as far as its table, from a market whose deployer, the pool admin,
  -- registry owner and first signer and another account than the desired admin, held all that the task
  -- looks for, and where the ACL admin of the accounts is a default admin; and afterwards all contracts are
  -- found. Then `view-protocol-roles` shows its table, with these checks: those on the provider, the
  -- registry, the ACL admin, the default admin, the gateway, the pool admin and the emission manager hold;
  -- the one on the emergency admin holds exactly if the address that it asks for is not the one from which
  -- the role was taken, and is the desired admin or had the role before; and those on the asset listing
  -- admin, the treasury, the incentives and the two adapters are as they were.
  pub view_after_transfer :
      IsFaithful p
      → Accepts p
      → (o c e d x : String) (s t : State) (rows : List Row)
      → transfer_protocol_ownership p (deployed_by o c e) (some d) s ≡ ok (report rows, t)
      → IsDeployed o e (view s)
      → IsRoleAdmin c (view s)
      → str_eq o d ≡ false
      → str_eq x "" ≡ false
      → ((k : Lookup) → found t k ≡ true)
      → (table : List Row) × (view_protocol_roles p (deployed_by o c e) (some d) (some x) t
          ≡ ok (report table, t))
        × (map Row.holds table
            ≡ checks_after o e d x (view s) ++ map Row.holds (emission_rows (view s)))
  view_after_transfer faithful accepts o c e d x s t rows run deployed admin other given all =
      let (named, _) = address_of p (deployed_by o c e) d s t rows run in
      let after =
        transfer_moves p faithful accepts o c e d s t rows run (admin, deployed.provider_owned) in
      let after' : view t ≡ handed_over o e d (view s) =
        after ∙ transferred-IsDeployed o c e d (view s) deployed in
      (
        role_rows (deployed_by o c e) d x Ownable.gateway (view t) ++ emission_rows (view t),
        view_protocol_roles-found (deployed_by o c e) d x t all named given,
        map-++ Row.holds (role_rows (deployed_by o c e) d x Ownable.gateway (view t))
              (emission_rows (view t))
            ∙ ap
                (λ v.
                  map Row.holds (role_rows (deployed_by o c e) d x Ownable.gateway v)
                  ++ map Row.holds (emission_rows v))
                after'
            ∙ ap (λ bs. bs ++ map Row.holds (emission_rows (handed_over o e d (view s))))
                (role_rows-handed_over o c e d x (view s) other)
            ∙ ap (λ bs. checks_after o e d x (view s) ++ map Row.holds bs)
                (emission_rows-handed_over o e d (view s)),
      )
