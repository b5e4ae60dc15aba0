-- ===== src/Scenario/Actions.antt =====
-- The steps that the actions of test-suites/helpers/actions.ts share. A signer stands for itself by its
-- address; an argument that may be missing or empty is an `Option`.
pub mod Supply
pub mod Debt
pub mod Settings
pub mod Passing
pub mod TimeTravel
pub mod Reads
use text.Mathlib.Text.{◌==◌ as str_eq}
use rasa_lending_platform_sm.Prelude.{
  ℕ, zero, suc, ◌^◌, Bool, true, false, ◌||◌, String, Option, none, some, if◌then◌else◌,
}
use rasa_lending_platform_sm.Prelude.Int.{ℤ, pos, ◌+ℤ◌, ◌*ℤ◌, tdiv, ltb_ℤ}
use rasa_lending_platform_sm.Prelude.Result.{
  Result, ok, err, reverted, assertion_failed, missing_deployment, malformed, thrown,
}
use rasa_lending_platform_sm.Calculations.Data.{ReserveData, UserReserveData}
use rasa_lending_platform_sm.Calculations.Interest.{one_year}
use rasa_lending_platform_sm.Calculations.Liquidity.{max_uint_amount}
use rasa_lending_platform_sm.Helpers.{get_reserve_data, get_user_data}
use rasa_lending_platform_sm.Types.{RateMode}
use rasa_lending_platform_sm.Scenario.Chain.{
  PermitParams, Call, Receipt, Outcome, mined, refused, Chain, Run, pure, lift, asks, throw,
  continue, ◌>>=◌, ◌>>◌,
}
use rasa_lending_platform_sm.Scenario.Compare.{compare_reserves, compare_users}

-- `if (text)`: neither missing nor empty.
abbrev pub given : Option String → Bool
given none = false
given (some text) = if str_eq text "" then false else true

-- A rate mode is compared with `RateMode.Stable` and goes to the contracts as a text.
unfoldable pub mode_of : String → RateMode
mode_of text =
    if str_eq text "1"
    then RateMode.stable
    else if str_eq text "2"
    then RateMode.variable
    else RateMode.none

-- The deadline of every permit.
abbrev pub high_deadline : String
high_deadline = "100000000000000000000000000"

pub record ContractsData : Type 0 where
  pub reserve_data : ReserveData
  pub user_data : UserReserveData
  pub timestamp : ℤ

pub record CostAndTimestamp : Type 0 where
  pub tx_cost : ℤ
  pub tx_timestamp : ℤ

-- `BigNumber.toNumber` throws on what is no safe integer.
abbrev pub to_number : ℤ → Result ℤ
to_number n =
    if ltb_ℤ n (pos (2 ^ 53))
    then (if ltb_ℤ (pos 0) (n +ℤ pos (2 ^ 53)) then ok n else err malformed)
    else err malformed

module _ (c : Chain) where
  open c use {
    State, testnet_token, decimals, reserve_answers, user_answers, latest_timestamp,
    block_timestamp, gas_price, chain_id, nonce, pool, send, mine_at, parse_units, big_number,
    skip_integrity_check,
  }

  unfoldable pub reserve_address : String → Run State String
  reserve_address symbol s = elim (testnet_token s symbol) [
    | none ↦ err missing_deployment
    | some address ↦ ok (address, s)
  ]

  unfoldable pub convert_to_currency_decimals : String → String → Run State ℤ
  convert_to_currency_decimals token amount = do
    places ← asks (λ s. decimals s token)
    lift (parse_units amount places)

  -- `sendValue`, if it is given.
  unfoldable pub value_to_send : String → Option String → Run State (Option ℤ)
  value_to_send token none = pure none
  value_to_send token (some text) =
      if str_eq text ""
      then pure none
      else (do value ← convert_to_currency_decimals token text; pure (some value))

  -- An amount of -1 stands for the largest one.
  unfoldable pub amount_or_all : String → String → Run State ℤ
  amount_or_all token amount =
      if str_eq amount "-1"
      then pure (pos max_uint_amount)
      else convert_to_currency_decimals token amount

  unfoldable pub get_contracts_data : String → String → String → Run State ContractsData
  get_contracts_data reserve user sender = do
    user_data ← asks (λ s. get_user_data (user_answers s reserve user sender))
    answers ← asks (λ s. reserve_answers s reserve)
    reserve_data ← lift (get_reserve_data reserve answers)
    timestamp ← asks latest_timestamp
    pure (record { reserve_data = reserve_data; user_data = user_data; timestamp = timestamp })

  -- The typed data of a permit to the pool, at the token of `symbol`.
  unfoldable pub permit_params : State → String → String → String → ℤ → PermitParams
  permit_params s token symbol owner value = record {
    chain_id = chain_id s;
    token = token;
    revision = "1";
    token_name = symbol;
    owner = owner;
    spender = pool s;
    nonce = nonce s token owner;
    deadline = high_deadline;
    value = value;
  }

  -- `waitForTx(await ...)`.
  unfoldable pub wait_for_tx : String → Call → Run State Receipt
  wait_for_tx sender call s = elim (send s sender call) [
    | mined receipt s' ↦ ok (receipt, s')
    | refused reason s' ↦ err reverted
  ]

  -- `expect(...).to.be.reverted`.
  unfoldable pub expect_reverted : String → Call → Run State (Unit {0})
  expect_reverted sender call s = elim (send s sender call) [
    | mined receipt s' ↦ err assertion_failed
    | refused reason s' ↦ ok (tt, s')
  ]

  -- The branches on `expectedResult`: any other text runs neither.
  unfoldable pub by_result :
      String → Run State (Unit {0}) → Run State (Unit {0}) → Run State (Unit {0})
  by_result expected on_success on_revert =
      if str_eq expected "success"
      then on_success
      else if str_eq expected "revert"
      then on_revert
      else pure tt

  -- `gasPrice`: that of the transaction, or else the effective one.
  abbrev pub price_paid : Option ℤ → ℤ → ℤ
  price_paid none effective = effective
  price_paid (some price) effective = price

  unfoldable pub cost_and_timestamp :
      Receipt → Option ℕ → Option String → Option ℤ → Run State CostAndTimestamp
  cost_and_timestamp tx (some (suc n)) (some hash) (some gas) =
      if str_eq hash "" then throw (thrown "No tx blocknumber") else (do
        timestamp ← asks (λ s. block_timestamp s (suc n))
        price ← asks (λ s. gas_price s hash)
        pure (record {
          tx_cost = gas *ℤ price_paid price tx.effective_gas_price;
          tx_timestamp = timestamp;
        }))
  cost_and_timestamp tx (some zero) hash gas = throw (thrown "No tx blocknumber")
  cost_and_timestamp tx none hash gas = throw (thrown "No tx blocknumber")
  cost_and_timestamp tx (some (suc n)) none gas = throw (thrown "No tx blocknumber")
  cost_and_timestamp tx (some (suc n)) (some hash) none = throw (thrown "No tx blocknumber")

  unfoldable pub get_tx_cost_and_timestamp : Receipt → Run State CostAndTimestamp
  get_tx_cost_and_timestamp tx =
      cost_and_timestamp tx tx.block_number tx.transaction_hash tx.cumulative_gas_used

  -- `expectEqual`, of reserves and of users.
  unfoldable pub expect_equal_reserve : ReserveData → ReserveData → Run State (Unit {0})
  expect_equal_reserve actual expected =
      if skip_integrity_check then pure tt else lift (compare_reserves actual expected)

  unfoldable pub expect_equal_user : UserReserveData → UserReserveData → Run State (Unit {0})
  expect_equal_user actual expected =
      if skip_integrity_check then pure tt else lift (compare_users actual expected)

  -- `timeTravel`, in days, if it is given.
  unfoldable pub travel : Option String → Run State (Unit {0})
  travel none = pure tt
  travel (some text) = if str_eq text "" then pure tt else (do
    days ← lift (big_number text)
    seconds ← lift (to_number (tdiv (days *ℤ pos one_year) (pos 365)))
    advance seconds)
    where
      advance : ℤ → Run State (Unit {0})
      advance seconds s = ok (tt, mine_at s (latest_timestamp s +ℤ seconds))

  -- The end of each successful action: both predictions, and both comparisons.
  unfoldable pub expect_predicted :
      ContractsData
      → Result ReserveData
      → (ReserveData → Result UserReserveData)
      → Run State (Unit {0})
  expect_predicted after predicted_reserve predicted_user = do
    expected_reserve ← lift predicted_reserve
    expected_user ← lift (predicted_user expected_reserve)
    expect_equal_reserve after.reserve_data expected_reserve
    expect_equal_user after.user_data expected_user
