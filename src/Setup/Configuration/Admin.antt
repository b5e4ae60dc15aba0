-- ===== src/Setup/Configuration/Admin.antt =====
-- The transactions of `configureReservesByHelper` in helpers/init-helpers.ts, and the risk admin.
use rasa_lending_platform_sm.Prelude.{◌≡◌, ◌↔◌, String, List, [], ◌∷◌, map}
use rasa_lending_platform_sm.Prelude.Result.{Result, ok, err, reverted}
use rasa_lending_platform_sm.Types.{SymbolMap, ReserveParams}
use rasa_lending_platform_sm.Utilities.{chunk}
use rasa_lending_platform_sm.Scenario.Chain.{
  Run, Receipt, Outcome, mined, refused, ◌>>◌, continue-eq-ok,
}
use rasa_lending_platform_sm.Scenario.Chain.Reading.{Reads, lift-Reads, Reading, reading_iff}
use rasa_lending_platform_sm.Setup.Deployments.{Deployed, ConfigureInput, SetupCall, Market}
use rasa_lending_platform_sm.Setup.{deployment_at, deployment, transact, transact_all}
use rasa_lending_platform_sm.Setup.Configuration.{
  select_inputs, configure_as_admin, configure_reserves_by_helper,
}

module _ (m : Market) where
  open m use {State, acl_admin, acl_manager_of, pool_configurator, deployer, send}

  -- The transaction is mined.
  abbrev pub Mined : String → SetupCall → State → State → Type 0
  Mined signer call s t = (receipt : Receipt) × (send s signer call ≡ mined receipt t)

  -- The transactions are mined, one after the other.
  abbrev pub AllMined : String → List SetupCall → State → State → Type 0
  AllMined signer [] s t = s ≡ t
  AllMined signer (call ∷ calls) s t =
      (u : State) × Mined signer call s u × AllMined signer calls u t

  transact_iff :
      (signer : String) (call : SetupCall) (s t : State)
      → (transact m signer call s ≡ ok (tt, t)) ↔ Mined signer call s t
  unfolding transact
  transact_iff signer call s t = by_outcome (send s signer call)
    where
      by_outcome :
          (outcome : Outcome State)
          → ((elim outcome as (λ x. Result (Unit {0} × State)) [
            | mined receipt s' ↦ ok (tt, s')
            | refused reason s' ↦ err reverted
          ])
              ≡ ok (tt, t))
            ↔ ((receipt : Receipt) × (outcome ≡ mined receipt t))
      by_outcome (mined receipt s') = (λ e. (receipt, cc), λ (r, e). cc)
      by_outcome (refused reason s') = (λ e. cc, λ (r, e). cc)

  -- A run and what follows it.
  then_iff :
      (first rest : Run State (Unit {0})) (Q P : State → Type 0) (s t : State)
      → ((u : State) → (first s ≡ ok (tt, u)) ↔ Q u)
      → ((u : State) → (rest u ≡ ok (tt, t)) ↔ P u)
      → ((first >> rest) s ≡ ok (tt, t)) ↔ ((u : State) × Q u × P u)
  then_iff first rest Q P s t g h = (
    λ e.
        let (_, u, before, others) = continue-eq-ok (λ _. rest) (first s) e in
        (u, (g u).0 before, (h u).0 others),
    λ (u, q, p).
        let before : first s ≡ ok (tt, u) = (g u).1 q in
        let others : rest u ≡ ok (tt, t) = (h u).1 p in rw (before) others,
  )

  transact_all_iff :
      (signer : String) (calls : List SetupCall) (s t : State)
      → (transact_all m signer calls s ≡ ok (tt, t)) ↔ AllMined signer calls s t
  unfolding transact_all
  transact_all_iff signer [] s t = (λ e. cc, λ e. cc)
  transact_all_iff signer (call ∷ calls) s t =
      then_iff (transact m signer call) (transact_all m signer calls) (Mined signer call s)
        (λ u. AllMined signer calls u t) s t (transact_iff signer call s)
        (λ u. transact_all_iff signer calls u t)

  -- The helper becomes a risk admin, configures the reserves in batches of 20, and is one no more.
  abbrev pub Configured : String → String → String → List ConfigureInput → State → State → Type 0
  Configured provider manager helper [] s t = s ≡ t
  Configured provider manager helper (input ∷ inputs) s t =
      (u : State) × Mined (acl_admin s provider) (SetupCall.add_risk_admin manager helper) s u
      × ((v : State) × AllMined deployer
            (map (SetupCall.configure_reserves helper (pool_configurator u provider))
              (chunk (input ∷ inputs) 20))
            u v
          × Mined (acl_admin s provider) (SetupCall.remove_risk_admin manager helper) v t)

  configure_as_admin_iff :
      (provider manager helper : String) (inputs : List ConfigureInput) (s t : State)
      → (configure_as_admin m provider manager helper inputs s ≡ ok (tt, t))
        ↔ Configured provider manager helper inputs s t
  unfolding configure_as_admin
  configure_as_admin_iff provider manager helper [] s t = (λ e. cc, λ e. cc)
  configure_as_admin_iff provider manager helper (input ∷ inputs) s t =
      let admin = acl_admin s provider in
      let remove = SetupCall.remove_risk_admin manager helper in
      then_iff (transact m admin (SetupCall.add_risk_admin manager helper)) _ _ _ s t
        (transact_iff admin (SetupCall.add_risk_admin manager helper) s)
        (λ u.
          let calls =
            map (SetupCall.configure_reserves helper (pool_configurator u provider))
              (chunk (input ∷ inputs) 20) in
          then_iff (transact_all m deployer calls) (transact m admin remove)
            (AllMined deployer calls u) (λ v. Mined admin remove v t) u t
            (transact_all_iff deployer calls u) (λ v. transact_iff admin remove v t))

  deployment-Reads : (id : Deployed) → Reads (deployment m id)
  unfolding Reads deployment
  deployment-Reads id s t a = lift-Reads State (deployment_at m s id) s t a

  -- The steps of a configuration that passes, from the state `s` to the state `t`.
  abbrev pub ConfigurationPasses :
      SymbolMap ReserveParams → SymbolMap String → State → State → Type 0
  ConfigurationPasses reserves_params tokens s t =
      Reading (deployment m Deployed.addresses_provider) s (λ provider.
        Reading (deployment m Deployed.acl_manager) s (λ _.
          Reading (deployment m Deployed.reserves_setup_helper) s (λ helper.
            Reading (deployment m Deployed.pool_data_provider) s (λ _.
              Configured provider (acl_manager_of s provider) helper
                (select_inputs m s tokens reserves_params) s t))))

  -- `configureReservesByHelper` passes exactly if the four deployments are found, and: with no reserve
  -- to configure, nothing is sent; otherwise the helper is made a risk admin, the deployer's
  -- transactions, one for each chunk of 20 reserves, are mined in order, and the helper's role is
  -- taken back by the same admin at the end.
  pub configure_reserves_by_helper_iff :
      (reserves_params : SymbolMap ReserveParams) (tokens : SymbolMap String) (s t : State)
      → (configure_reserves_by_helper m reserves_params tokens s ≡ ok (tt, t))
        ↔ ConfigurationPasses reserves_params tokens s t
  unfolding configure_reserves_by_helper
  configure_reserves_by_helper_iff reserves_params tokens s t =
      reading_iff (deployment m Deployed.addresses_provider) _ _ s t tt
        (deployment-Reads Deployed.addresses_provider)
        (λ provider.
          reading_iff (deployment m Deployed.acl_manager) _ _ s t tt
            (deployment-Reads Deployed.acl_manager)
            (λ _.
              reading_iff (deployment m Deployed.reserves_setup_helper) _ _ s t tt
                (deployment-Reads Deployed.reserves_setup_helper)
                (λ helper.
                  reading_iff (deployment m Deployed.pool_data_provider) _ _ s t tt
                    (deployment-Reads Deployed.pool_data_provider)
                    (λ _.
                      configure_as_admin_iff provider (acl_manager_of s provider) helper
                        (select_inputs m s tokens reserves_params) s t))))
