-- ===== src/Scenario/Chain.antt =====
-- What test-suites/helpers/actions.ts calls: the deployed contracts and the node, through ethers and
-- hardhat. The state of the chain and the answers to calls are a parameter, the record `Chain`.
pub mod Reading
use rasa_lending_platform_sm.Prelude.{ℕ, ◌≡◌, refl, Bool, true, false, String, Option, none, some}
use rasa_lending_platform_sm.Prelude.Int.{ℤ}
use rasa_lending_platform_sm.Prelude.Result.{Error, Result, ok, err}
use rasa_lending_platform_sm.Types.{SymbolMap, ReserveParams}
use rasa_lending_platform_sm.Helpers.{ReserveAnswers, UserAnswers}

-- The parameters of `buildPermitParams`: its typed data is fixed but for these.
pub record PermitParams : Type 0 where
  pub chain_id : ℕ
  pub token : String
  pub revision : String
  pub token_name : String
  pub owner : String
  pub spender : String
  pub nonce : ℕ
  pub deadline : String
  pub value : ℤ

-- A transaction of the contracts. The last argument of `deposit`, `supply_with_permit`, `repay` and
-- `repay_with_permit` is `txOptions.value`.
pub data Call : Type 0 where
  mint : String → ℤ → Call
  approve : String → ℤ → Call
  approve_delegation : String → String → ℤ → Call
  deposit : String → ℤ → String → Option ℤ → Call
  supply_with_permit : String → ℤ → String → String → String → Option ℤ → Call
  withdraw : String → ℤ → String → Call
  borrow : String → ℤ → String → String → Call
  repay : String → ℤ → String → String → Option ℤ → Call
  repay_with_permit : String → ℤ → String → String → String → String → Option ℤ → Call
  set_use_as_collateral : String → Bool → Call
  swap_borrow_rate_mode : String → String → Call
  rebalance_stable_borrow_rate : String → String → Call

-- The receipt of a mined transaction.
pub record Receipt : Type 0 where
  pub block_number : Option ℕ
  pub transaction_hash : Option String
  pub cumulative_gas_used : Option ℤ
  pub effective_gas_price : ℤ

-- A transaction is mined, or it is refused for a reason.
pub data Outcome (S : Type 0) : Type 0 where
  mined : Receipt → S → Outcome S
  refused : String → S → Outcome S

-- The promise of a transaction, once it is settled.
pub data Promise : Type 0 where
  fulfilled : Receipt → Promise
  rejected : String → Promise

pub record Chain : Type 1 where
  pub State : Type 0
  -- `hre.deployments.get` of the testnet token of a symbol.
  pub testnet_token : State → String → Option String
  -- The contracts' answers.
  pub decimals : State → String → ℕ
  pub reserve_answers : State → String → ReserveAnswers
  pub user_answers : State → String → String → String → UserAnswers
  pub stable_debt_token : State → String → String
  pub variable_debt_token : State → String → String
  pub borrow_allowance : State → String → String → String → ℤ
  pub nonce : State → String → String → ℕ
  pub pool : State → String
  -- The node's answers.
  pub chain_id : State → ℕ
  pub latest_timestamp : State → ℤ
  pub block_timestamp : State → ℕ → ℤ
  pub gas_price : State → String → Option ℤ
  -- `connect(signer)` and a transaction; time, set and mined.
  pub send : State → String → Call → Outcome State
  pub mine_at : State → ℤ → State
  -- ethers: `parseUnits`, `BigNumber.from` of a text, and a signature of typed data.
  pub parse_units : String → ℕ → Result ℤ
  pub big_number : String → Result ℤ
  pub sign : String → PermitParams → String
  -- The configuration objects of calculations.ts and actions.ts.
  pub reserves_params : SymbolMap ReserveParams
  pub skip_integrity_check : Bool

-- A function of the actions: it reads and changes the chain, and may throw.
abbrev pub Run : Type 0 → Type 0 → Type 0
Run S A = S → Result (A × S)

module _ {S : Type 0} where
  abbrev pub pure : {A : Type 0} → A → Run S A
  pure a s = ok (a, s)

  abbrev pub lift : {A : Type 0} → Result A → Run S A
  lift (ok a) s = ok (a, s)
  lift (err e) s = err e

  abbrev pub asks : {A : Type 0} → (S → A) → Run S A
  asks f s = ok (f s, s)

  abbrev pub throw : {A : Type 0} → Error → Run S A
  throw e s = err e

  abbrev pub continue : {A B : Type 0} → (A → Run S B) → Result (A × S) → Result (B × S)
  continue f (ok (a, s)) = f a s
  continue f (err e) = err e

  infixl 5 ◌>>=◌ ◌>>◌
  abbrev pub ◌>>=◌ : {A B : Type 0} → Run S A → (A → Run S B) → Run S B
  ◌>>=◌ m f s = continue f (m s)

  abbrev pub ◌>>◌ : {B : Type 0} → Run S (Unit {0}) → Run S B → Run S B
  m >> k = m >>= λ _. k

  -- What a run that did not throw went through.
  pub continue-eq-ok :
      {A B : Type 0} (f : A → Run S B) (r : Result (A × S)) {b : B × S}
      → continue f r ≡ ok b
      → (a : A) × (s : S) × (r ≡ ok (a, s)) × (f a s ≡ ok b)
  continue-eq-ok f (ok (a, s)) h = (a, s, refl, h)
  continue-eq-ok f (err e) h = cc
