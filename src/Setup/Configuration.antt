-- ===== src/Setup/Configuration.antt =====
-- `configureReservesByHelper` and `getPairsTokenAggregator` of helpers/init-helpers.ts.
pub mod Admin
use text.Mathlib.Text.{◌==◌ as str_eq}
use rasa_lending_platform_sm.Prelude.{
  Bool, ◌||◌, String, Option, none, some, List, [], ◌∷◌, map, if◌then◌else◌,
}
use rasa_lending_platform_sm.Prelude.Int.{ℤ, negsuc, eqb_ℤ}
use rasa_lending_platform_sm.Prelude.Result
use rasa_lending_platform_sm.Prelude.Result.{Result, ok, err, undefined_value, thrown}
use rasa_lending_platform_sm.Types.{SymbolMap, ReserveParams}
use rasa_lending_platform_sm.Utilities.{chunk}
use rasa_lending_platform_sm.Scenario.Chain.{Run, pure, lift, asks, throw, continue, ◌>>=◌, ◌>>◌}
use rasa_lending_platform_sm.Setup.Deployments.{Deployed, ConfigureInput, SetupCall, Market}
use rasa_lending_platform_sm.Setup.{value_at, deployment, transact, transact_all}

-- The pairs of a token and its aggregator. A missing aggregator throws at the pattern that takes its
-- entry apart, before the code's own check, which sees empty addresses only.
unfoldable pub pair_of : SymbolMap String → String → String → Result (String × String)
pair_of aggregators symbol token = elim (value_at symbol aggregators) [
  | none ↦ err undefined_value
  | some aggregator ↦
      if str_eq aggregator ""
      then err (thrown "Missing aggregator")
      else if str_eq token ""
      then err (thrown "Missing token address")
      else ok (token, aggregator)
]

unfoldable pub get_pairs_token_aggregator :
    SymbolMap String → SymbolMap String → Result (List String × List String)
get_pairs_token_aggregator [] aggregators = ok ([], [])
get_pairs_token_aggregator ((symbol, token) ∷ rest) aggregators =
    let others = get_pairs_token_aggregator rest aggregators in
    if str_eq symbol "ETH" || str_eq symbol "USD"
    then others
    else Result.◌>>=◌ (pair_of aggregators symbol token)
        (λ pair. Result.◌>>=◌ others (λ lists. ok (pair.0 ∷ lists.0, pair.1 ∷ lists.1)))

module _ (m : Market) where
  open m use {State, used_as_collateral, acl_admin, acl_manager_of, pool_configurator, deployer}

  -- The token of a reserve to configure: one with a token, a loan to value that is not -1, and no
  -- collateral enabled yet.
  unfoldable pub token_to_configure :
      State → SymbolMap String → String → ReserveParams → Option String
  token_to_configure s tokens symbol params = elim (value_at symbol tokens) [
    | none ↦ none
    | some token ↦
        if str_eq token ""
        then none
        else if eqb_ℤ params.base_ltv_as_collateral (negsuc 0)
        then none
        else if used_as_collateral s token
        then none
        else some token
  ]

  abbrev pub configure_input : String → ReserveParams → ConfigureInput
  configure_input token params = record {
    asset = token;
    base_ltv = params.base_ltv_as_collateral;
    liquidation_threshold = params.liquidation_threshold;
    liquidation_bonus = params.liquidation_bonus;
    reserve_factor = params.reserve_factor;
    borrow_cap = params.borrow_cap;
    supply_cap = params.supply_cap;
    stable_borrowing_enabled = params.stable_borrow_rate_enabled;
    borrowing_enabled = params.borrowing_enabled;
    flash_loan_enabled = params.flash_loan_enabled;
  }

  unfoldable pub select_inputs :
      State → SymbolMap String → SymbolMap ReserveParams → List ConfigureInput
  select_inputs s tokens [] = []
  select_inputs s tokens ((symbol, params) ∷ rest) =
      let others = select_inputs s tokens rest in
      elim (token_to_configure s tokens symbol params) [
        | none ↦ others
        | some token ↦ configure_input token params ∷ others
      ]

  -- The helper contract is a risk admin while it configures.
  unfoldable pub configure_as_admin :
      String → String → String → List ConfigureInput → Run State (Unit {0})
  configure_as_admin provider manager helper [] = pure tt
  configure_as_admin provider manager helper (input ∷ inputs) = do
    admin ← asks (λ s. acl_admin s provider)
    transact m admin (SetupCall.add_risk_admin manager helper)
    configurator ← asks (λ s. pool_configurator s provider)
    transact_all m deployer
        (map (SetupCall.configure_reserves helper configurator) (chunk (input ∷ inputs) 20))
    transact m admin (SetupCall.remove_risk_admin manager helper)

  unfoldable pub configure_reserves_by_helper :
      SymbolMap ReserveParams → SymbolMap String → Run State (Unit {0})
  configure_reserves_by_helper reserves_params tokens = do
    provider ← deployment m Deployed.addresses_provider
    acl_manager ← deployment m Deployed.acl_manager
    manager ← asks (λ s. acl_manager_of s provider)
    helper ← deployment m Deployed.reserves_setup_helper
    data_provider ← deployment m Deployed.pool_data_provider
    inputs ← asks (λ s. select_inputs s tokens reserves_params)
    configure_as_admin provider manager helper inputs
