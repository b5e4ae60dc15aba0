-- ===== src/Setup/Initialization/Strategies.antt =====
-- The rate strategies of helpers/init-helpers.ts are loaded once, and each reserve gets its own.
use text.Mathlib.Text.{◌==◌ as str_eq}
use text.Mathlib.TextEquality.{eq_iff}
use rasa_lending_platform_sm.Prelude.{
  ◌≡◌, refl, Bool, true, false, String, Option, none, some, List, [], ◌∷◌, if◌then◌else◌,
}
use rasa_lending_platform_sm.Prelude.Result
use rasa_lending_platform_sm.Prelude.Result.{Result, ok, err, missing_deployment}
use rasa_lending_platform_sm.Types.{SymbolMap, ReserveParams}
use rasa_lending_platform_sm.Setup.Deployments.{Deployed, Market}
use rasa_lending_platform_sm.Setup.{
  value_at, is_generic, Selected, deployment_at, token_to_init, load_strategy, select_reserves,
}

module _ (m : Market) where
  open m use {State, deployed}

  -- The reserves to initialise, with the strategy of each looked up again.
  abbrev pub selected_with :
      State → SymbolMap String → SymbolMap ReserveParams → Result (List Selected)
  selected_with s tokens [] = ok []
  selected_with s tokens ((symbol, params) ∷ rest) = elim (token_to_init m s tokens symbol) [
    | none ↦ selected_with s tokens rest
    | some token ↦
        Result.◌>>=◌ (deployment_at m s (Deployed.reserve_strategy params.strategy.name))
          (λ address. Result.◌>>=◌ (selected_with s tokens rest) (λ others. ok (
            record {
              symbol = symbol;
              token = token;
              decimals = params.reserve_decimals;
              strategy_address = address;
              generic = is_generic params;
            }
            ∷ others)))
  ]

  -- What is loaded is what is deployed.
  abbrev Loaded : State → SymbolMap String → Type 0
  Loaded s loaded =
      (name address : String)
      → value_at name loaded ≡ some address
      → deployed s (Deployed.reserve_strategy name) ≡ some address

  abbrev Agree : State → Result (String × SymbolMap String) → Result String → Type 0
  Agree s (ok pair) (ok address) = (pair.0 ≡ address) × Loaded s pair.1
  Agree s (ok pair) (err e) = ⊥
  Agree s (err e) (ok address) = ⊥
  Agree s (err e) (err f) = e ≡ f

  extended-Loaded :
      (s : State) (name address : String) (loaded : SymbolMap String)
      → deployed s (Deployed.reserve_strategy name) ≡ some address
      → Loaded s loaded
      → Loaded s ((name, address) ∷ loaded)
  unfolding value_at
  extended-Loaded s name address loaded here there other found e =
      by_test (str_eq name other) refl e
    where
      by_test :
          (b : Bool)
          → str_eq name other ≡ b
          → (if b then some address else value_at other loaded) ≡ some found
          → deployed s (Deployed.reserve_strategy other) ≡ some found
      by_test true h f = let same : name ≡ other = (eq_iff name other).0 h in cc
      by_test false h f = there other found f

  deployed-deployment_at :
      (s : State) (id : Deployed) (address : String)
      → deployment_at m s id ≡ ok address
      → deployed s id ≡ some address
  unfolding deployment_at
  deployed-deployment_at s id address e = by_answer (deployed s id) e
    where
      by_answer :
          (o : Option String)
          → (elim o as (λ x. Result String) [ none ↦ err missing_deployment | some a ↦ ok a ])
            ≡ ok address
          → o ≡ some address
      by_answer none f = cc
      by_answer (some a) f = cc

  deployment_at-deployed :
      (s : State) (id : Deployed) (address : String)
      → deployed s id ≡ some address
      → deployment_at m s id ≡ ok address
  unfolding deployment_at
  deployment_at-deployed s id address e = rw (e, deployment_at) refl

  load_strategy-Agree :
      (s : State) (name : String) (loaded : SymbolMap String)
      → Loaded s loaded
      → Agree s (load_strategy m s name loaded) (deployment_at m s (Deployed.reserve_strategy name))
  unfolding load_strategy
  load_strategy-Agree s name loaded h = by_loaded (value_at name loaded) refl
    where
      id : Deployed
      id = Deployed.reserve_strategy name

      load : Result String → Result (String × SymbolMap String)
      load (err e) = err e
      load (ok address) = ok (address, (name, address) ∷ loaded)

      fresh : (r : Result String) → deployment_at m s id ≡ r → Agree s (load r) r
      fresh (err e) at = refl
      fresh (ok address) at =
          (refl, extended-Loaded s name address loaded (deployed-deployment_at s id address at) h)

      kept :
          (b : Bool) (address : String)
          → deployment_at m s id ≡ ok address
          → Agree s
              (if b then load (deployment_at m s id) else ok (address, loaded))
              (deployment_at m s id)
      kept true address at = fresh (deployment_at m s id) refl
      kept false address at = rw (at) (refl, h)

      by_loaded :
          (o : Option String)
          → value_at name loaded ≡ o
          → Agree s
              (elim o as (λ x. Result (String × SymbolMap String)) [
                | none ↦ load (deployment_at m s id)
                | some address ↦
                    if str_eq address "" then load (deployment_at m s id) else ok (address, loaded)
              ])
              (deployment_at m s id)
      by_loaded none e = fresh (deployment_at m s id) refl
      by_loaded (some address) e =
          kept (str_eq address "") address (deployment_at-deployed s id address (h name address e))

  same_selection :
      (s : State) (tokens : SymbolMap String) (entries : SymbolMap ReserveParams)
      (loaded : SymbolMap String)
      → Loaded s loaded
      → select_reserves m s tokens entries loaded ≡ selected_with s tokens entries
  unfolding select_reserves
  same_selection s tokens [] loaded h = refl
  same_selection s tokens ((symbol, params) ∷ rest) loaded h =
      by_token (same_selection s tokens rest) (token_to_init m s tokens symbol)
        (load_strategy m s params.strategy.name loaded)
        (deployment_at m s (Deployed.reserve_strategy params.strategy.name))
        (load_strategy-Agree s params.strategy.name loaded h)
    where
      entry : String → String → Selected
      entry token address = record {
        symbol = symbol;
        token = token;
        decimals = params.reserve_decimals;
        strategy_address = address;
        generic = is_generic params;
      }

      by_token :
          ((l : SymbolMap String)
            → Loaded s l
            → select_reserves m s tokens rest l ≡ selected_with s tokens rest)
          → (o : Option String) (r : Result (String × SymbolMap String)) (d : Result String)
          → Agree s r d
          → (elim o as (λ x. Result (List Selected)) [
            | none ↦ select_reserves m s tokens rest loaded
            | some token ↦ Result.◌>>=◌ r (λ strategy.
                Result.◌>>=◌
                  (select_reserves m s tokens rest strategy.1)
                  (λ others. ok (entry token strategy.0 ∷ others)))
          ])
            ≡ (elim o as (λ x. Result (List Selected)) [
              | none ↦ selected_with s tokens rest
              | some token ↦ Result.◌>>=◌ d (λ address.
                  Result.◌>>=◌
                    (selected_with s tokens rest)
                    (λ others. ok (entry token address ∷ others)))
            ])
      by_token ih none r d agree = ih loaded h
      by_token ih (some token) (ok pair) (ok address) (same, there) =
          rw (ih pair.1 there, same) refl
      by_token ih (some token) (ok pair) (err e) agree = absurd agree
      by_token ih (some token) (err e) (ok address) agree = absurd agree
      by_token ih (some token) (err e) (err f) agree = cc

  -- The reserves that `initReservesByHelper` selects, where a strategy that several of them share is
  -- looked up once and kept, are those of a selection that looks up the strategy of each: the same
  -- reserves in the same order with the same addresses, or the same error.
  pub select_reserves-selected_with :
      (s : State) (tokens : SymbolMap String) (entries : SymbolMap ReserveParams)
      → select_reserves m s tokens entries [] ≡ selected_with s tokens entries
  unfolding value_at
  select_reserves-selected_with s tokens entries =
      same_selection s tokens entries [] (λ name address e. cc)
