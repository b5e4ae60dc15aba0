-- ===== src/Events/Tokens.antt =====
-- test-suites/helpers/utils/tokenization-events.ts: a transaction of the pool or of a token, and the events
-- that its receipt must have. The contracts and the receipts' logs are a parameter, the record `Tokens`, over
-- the one of the actions. What is printed under `debug` is left out.
pub mod Scaled
pub mod Stable
pub mod Emitted
pub mod Changes
pub mod Balance
pub mod Accounting
pub mod Verdicts
pub mod Transfers
use text.Mathlib.Text.{◌==◌ as str_eq}
use rasa_lending_platform_sm.Prelude.{
  ℕ, Bool, true, false, not, ◌&&◌, String, Option, none, some, List, [], ◌∷◌, ◌++◌, if◌then◌else◌,
}
use rasa_lending_platform_sm.Prelude.Int.{ℤ, pos, ◌+ℤ◌, ◌-ℤ◌, ltb_ℤ}
use rasa_lending_platform_sm.Prelude.Result.{Result, ok, err, reverted, assertion_failed, ◌>>◌}
use rasa_lending_platform_sm.WadRayMath.{ray_mul, ray_div}
use rasa_lending_platform_sm.Calculations.Interest.{calc_expected_stable_debt_token_balance}
use rasa_lending_platform_sm.Setup.{zero_address}
use rasa_lending_platform_sm.Types.{RateMode}
use rasa_lending_platform_sm.Scenario.Chain.{
  Receipt, Chain, Run, pure, lift, asks, throw, continue, ◌>>=◌,
}
use rasa_lending_platform_sm.Scenario.Actions.{
  convert_to_currency_decimals, get_tx_cost_and_timestamp,
}
use rasa_lending_platform_sm.Events.{
  Item, number, plain, Arg, item, Log, Interface, Ethers, match_event,
}

-- The contracts whose events are looked for.
pub data Kind : Type 0 where
  underlying_token rs_token variable_debt_token stable_debt_token : Kind

-- A transaction; the address of the token comes first.
pub data TokenCall : Type 0 where
  supply withdraw : String → ℤ → String → TokenCall
  borrow repay : String → ℤ → RateMode → String → TokenCall
  transfer : String → String → ℤ → TokenCall
  transfer_from : String → String → String → ℤ → TokenCall

pub record Tokens : Type 1 where
  pub chain : Chain
  pub ethers : Ethers
  pub interface : Kind → Interface
  -- `pool.getReserveData`.
  pub token_of : chain.State → Kind → String → String
  -- The contracts' answers on a token and a user.
  pub previous_index : chain.State → String → String → ℤ
  pub scaled_balance_of : chain.State → String → String → ℤ
  pub user_stable_rate : chain.State → String → String → ℤ
  pub principal_balance_of : chain.State → String → String → ℤ
  pub user_last_updated : chain.State → String → String → ℤ
  pub average_stable_rate : chain.State → String → ℤ
  pub stable_supply : chain.State → String → ℤ
  pub normalized_income : chain.State → String → ℤ
  pub normalized_variable_debt : chain.State → String → ℤ
  -- The signer's transaction, if it is not refused: its receipt and logs.
  pub transact : chain.State → String → TokenCall → Option (Receipt × List Log × chain.State)
  -- chai's `emit` of `MockRepayment` with its arguments.
  pub has_repayment : List Log → String → String → String → ℤ → Bool

-- An event that the receipt must have: the contract and its address, the name and the arguments.
pub record Event : Type 0 where
  pub kind : Kind
  pub address : String
  pub name : String
  pub args : List Arg

unfoldable pub get_balance_increase : ℤ → ℤ → ℤ → ℤ
get_balance_increase scaled before after = ray_mul scaled after -ℤ ray_mul scaled before

-- `Transfer(from, to, value)`.
abbrev pub transfer_event : Kind → String → String → String → ℤ → Event
transfer_event kind address sender receiver value = record {
  kind = kind;
  address = address;
  name = "Transfer";
  args = item (plain sender) ∷ item (plain receiver) ∷ item (number value) ∷ [];
}

-- An event of two accounts and three numbers: `Mint` or `Burn` of a scaled token.
abbrev pub scaled_event : Kind → String → String → String → String → ℤ → ℤ → ℤ → Event
scaled_event kind address name caller holder value increase index = record {
  kind = kind;
  address = address;
  name = name;
  args =
      item (plain caller)
      ∷ item (plain holder)
      ∷ item (number value)
      ∷ item (number increase)
      ∷ item (number index)
      ∷ [];
}

abbrev pub balance_transfer_event : String → String → String → ℤ → ℤ → Event
balance_transfer_event address sender receiver scaled index = record {
  kind = Kind.rs_token;
  address = address;
  name = "BalanceTransfer";
  args =
      item (plain sender) ∷ item (plain receiver) ∷ item (number scaled) ∷ item (number index) ∷ [];
}

-- `Mint` and `Burn` of a stable debt.
abbrev pub stable_mint_event : String → String → String → ℤ → ℤ → ℤ → ℤ → ℤ → ℤ → Event
stable_mint_event address user holder amount balance increase rate average total = record {
  kind = Kind.stable_debt_token;
  address = address;
  name = "Mint";
  args =
      item (plain user)
      ∷ item (plain holder)
      ∷ item (number amount)
      ∷ item (number balance)
      ∷ item (number increase)
      ∷ item (number rate)
      ∷ item (number average)
      ∷ item (number total)
      ∷ [];
}

abbrev pub stable_burn_event : String → String → ℤ → ℤ → ℤ → ℤ → ℤ → Event
stable_burn_event address holder amount balance increase average total = record {
  kind = Kind.stable_debt_token;
  address = address;
  name = "Burn";
  args =
      item (plain holder)
      ∷ item (number amount)
      ∷ item (number balance)
      ∷ item (number increase)
      ∷ item (number average)
      ∷ item (number total)
      ∷ [];
}

module _ (t : Tokens) where
  open t use {chain, ethers, interface, transact}

  -- `matchEvent` of each, in their order.
  unfoldable pub require_events : List Log → List Event → Result (Unit {0})
  require_events logs [] = ok tt
  require_events logs (ev ∷ events) =
      match_event ethers (some logs) ev.name (interface ev.kind) (some ev.address) (some ev.args)
      >> require_events logs events

  -- A transaction and its receipt: a refused one throws.
  unfoldable pub submit : String → TokenCall → Run chain.State (Receipt × List Log)
  submit signer call s =
      elim (transact s signer call) as (λ _. Result ((Receipt × List Log) × chain.State)) [
        | none ↦ err reverted
        | some sent ↦ let (receipt, logs, s') = sent in ok ((receipt, logs), s')
      ]
