-- ===== src/Scenario/Engine/Arguments.antt =====
-- What an action of test-suites/helpers/scenario-engine.ts needs to pass.
use text.Mathlib.Text.{◌==◌ as str_eq}
use rasa_lending_platform_sm.Prelude.{
  ◌≡◌, refl, Bool, true, false, String, Option, none, some, List, [], ◌∷◌, if◌then◌else◌,
}
use rasa_lending_platform_sm.Prelude.Result.{Result, ok, err, thrown}
use rasa_lending_platform_sm.Scenario.Chain.{Chain, Run, lift, continue, ◌>>=◌, continue-eq-ok}
use rasa_lending_platform_sm.Scenario.Actions.Passing.{lift-eq-ok}
use rasa_lending_platform_sm.Scenario.Engine.{
  Args, Action, Accounts, required, rate_mode_of, user_at, private_key_at, perform,
  perform_on_position, execute_action, execute_actions,
}

-- A text that is there and is not empty.
abbrev pub Given : Option String → Type 0
Given text = (x : String) × (text ≡ some x) × (str_eq x "" ≡ false)

-- The argument that an action needs besides those that all of them need.
pub data Needed : Type 0 where
  nothing amount use_as_collateral target : Needed

abbrev pub Provided : Needed → Args → Type 0
Provided Needed.nothing args = Unit
Provided Needed.amount args = Given args.amount
Provided Needed.use_as_collateral args = Given args.use_as_collateral
Provided Needed.target args = Given args.target

-- The actions there are.
abbrev pub known_actions : List (String × Needed)
known_actions =
    ("mint", Needed.amount)
    ∷ ("approve", Needed.nothing)
    ∷ ("deposit", Needed.amount)
    ∷ ("supplyWithPermit", Needed.amount)
    ∷ ("delegateBorrowAllowance", Needed.amount)
    ∷ ("withdraw", Needed.amount)
    ∷ ("borrow", Needed.amount)
    ∷ ("repay", Needed.amount)
    ∷ ("repayWithPermit", Needed.amount)
    ∷ ("setUseAsCollateral", Needed.use_as_collateral)
    ∷ ("swapBorrowRateMode", Needed.nothing)
    ∷ ("rebalanceStableBorrowRate", Needed.target)
    ∷ []

-- The name is in the table, and what stands beside it is provided.
abbrev pub ProvidedIn : List (String × Needed) → String → Args → Type 0
ProvidedIn [] name args = ⊥
ProvidedIn ((key, needed) ∷ rest) name args =
    if str_eq name key then Provided needed args else ProvidedIn rest name args

required-Given :
    (text : Option String) (message x : String)
    → required text message ≡ ok x
    → (text ≡ some x) × (str_eq x "" ≡ false)
unfolding required
required-Given none message x e = cc
required-Given (some text) message x e = by_test (str_eq text "") refl e
  where
    by_test :
        (b : Bool)
        → str_eq text "" ≡ b
        → (if b then err (thrown message) else ok text) ≡ ok x
        → (some text ≡ some x) × (str_eq x "" ≡ false)
    by_test true h f = cc
    by_test false h f = let same : text ≡ x = cc in (cc, rw (← same) h)

module _ {S : Type 0} where
  lift-Given :
      {B : Type 0} (text : Option String) (message : String) (f : String → Run S B) (s : S)
      {b : B × S}
      → continue f (lift (required text message) s) ≡ ok b
      → Given text
  lift-Given text message f s e =
      let (x, t, step, rest) = continue-eq-ok f (lift (required text message) s) e in
      let (same, _) = lift-eq-ok (required text message) s step in
      (x, (required-Given text message x same).0, (required-Given text message x same).1)

  branch :
      {A : Type 0} (p : Bool) (m k : Run S A) (s : S) {P Q : Type 0} {b : A × S}
      → (m s ≡ ok b → P)
      → (k s ≡ ok b → Q)
      → (if p then m else k) s ≡ ok b
      → if p then P else Q
  branch true m k s f g = f
  branch false m k s f g = g

  -- The same, after another step.
  after-Given :
      {A B : Type 0} (first : Result A) (text : Option String) (message : String)
      (f : A → String → Run S B) (s : S) {b : B × S}
      → continue (λ a. lift (required text message) >>= f a) (lift first s) ≡ ok b
      → Given text
  after-Given first text message f s e =
      let (a, u, step, rest) =
        continue-eq-ok (λ a. lift (required text message) >>= f a) (lift first s) e in
      lift-Given text message (f a) u rest

module _ (c : Chain) (accounts : Accounts) where
  open c use {State}

  perform-ProvidedIn :
      (args : Args) (revert_message : Option String)
      (name reserve user private_key mode expected : String) (s t : State)
      → perform c accounts args revert_message name reserve user private_key mode expected s
        ≡ ok (tt, t)
      → ProvidedIn known_actions name args
  unfolding perform perform_on_position
  perform-ProvidedIn args revert_message name reserve user private_key mode expected s t =
      branch (str_eq name "mint") _ _ s (lift-Given args.amount _ _ s) (
        branch (str_eq name "approve") _ _ s (λ _. tt)
          (branch (str_eq name "deposit") _ _ s (after-Given _ args.amount _ _ s) (
            branch (str_eq name "supplyWithPermit") _ _ s (after-Given _ args.amount _ _ s) (
              branch (str_eq name "delegateBorrowAllowance") _ _ s (after-Given _ args.amount _ _ s)
                (branch (str_eq name "withdraw") _ _ s (lift-Given args.amount _ _ s) (
                  branch (str_eq name "borrow") _ _ s (after-Given _ args.amount _ _ s) (
                    branch (str_eq name "repay") _ _ s (lift-Given args.amount _ _ s) (
                      branch (str_eq name "repayWithPermit") _ _ s (lift-Given args.amount _ _ s) (
                        branch (str_eq name "setUseAsCollateral") _ _ s
                          (lift-Given args.use_as_collateral _ _ s)
                          (branch (str_eq name "swapBorrowRateMode") _ _ s (λ _. tt)
                            (branch (str_eq name "rebalanceStableBorrowRate") _ _ s
                              (lift-Given args.target _ _ s) (λ e. cc))))))))))))

  -- The action has a name, a reserve, a user among the accounts with a private key, an expected result,
  -- and what the table asks of an action of its name.
  abbrev pub WellFormed : Action → Type 0
  WellFormed action =
      (name reserve index expected private_key user : String) × (action.name ≡ some name)
      × (action.args.reserve ≡ some reserve)
      × (action.args.user ≡ some index)
      × (action.expected ≡ some expected)
      × (private_key_at accounts.wallets index ≡ ok private_key)
      × (user_at accounts.users (some index) ≡ ok user)
      × ProvidedIn known_actions name action.args

  execute_action-WellFormed :
      (action : Action) (s t : State)
      → execute_action c accounts action s ≡ ok (tt, t)
      → WellFormed action
  unfolding execute_action
  execute_action-WellFormed action s t e =
      let (name, s1, m1, e1) = continue-eq-ok _ (lift (required action.name _) s) e in
      let (reserve, s2, m2, e2) = continue-eq-ok _ (lift (required action.args.reserve _) s1) e1 in
      let (index, s3, m3, e3) = continue-eq-ok _ (lift (required action.args.user _) s2) e2 in
      let (expected, s4, m4, e4) = continue-eq-ok _ (lift (required action.expected _) s3) e3 in
      let (private_key, s5, m5, e5) =
        continue-eq-ok _ (lift (private_key_at accounts.wallets index) s4) e4 in
      let (user, s6, m6, e6) =
        continue-eq-ok _ (lift (user_at accounts.users (some index)) s5) e5 in
      (
        name,
        reserve,
        index,
        expected,
        private_key,
        user,
        lifted _ action.name name s s1 m1,
        lifted _ action.args.reserve reserve s1 s2 m2,
        lifted _ action.args.user index s2 s3 m3,
        lifted _ action.expected expected s3 s4 m4,
        (lift-eq-ok (private_key_at accounts.wallets index) s4 m5).0,
        (lift-eq-ok (user_at accounts.users (some index)) s5 m6).0,
        perform-ProvidedIn action.args action.revert_message name reserve user private_key
            (rate_mode_of action.args.borrow_rate_mode) expected s6 t e6,
      )
    where
      lifted :
          (message : String) (text : Option String) (x : String) (u v : State)
          → lift (required text message) u ≡ ok (x, v)
          → text ≡ some x
      lifted message text x u v h =
          (required-Given text message x (lift-eq-ok (required text message) u h).0).0

  abbrev pub AllWellFormed : List Action → Type 0
  AllWellFormed [] = Unit
  AllWellFormed (action ∷ rest) = WellFormed action × AllWellFormed rest

  -- If a list of actions passes, then each of them has a name that the engine knows, a reserve, an
  -- expected result, and a user among the accounts whose private key is there; and the argument that
  -- its name asks for, an amount, a collateral flag or a target, is given and not empty.
  pub execute_actions-WellFormed :
      (actions : List Action) (s t : State)
      → execute_actions c accounts actions s ≡ ok (tt, t)
      → AllWellFormed actions
  unfolding execute_actions
  execute_actions-WellFormed [] s t e = tt
  execute_actions-WellFormed (action ∷ rest) s t e =
      let (_, u, first, others) = continue-eq-ok _ (execute_action c accounts action s) e in
      (execute_action-WellFormed action s u first, execute_actions-WellFormed rest u t others)
