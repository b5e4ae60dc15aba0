-- ===== src/Scenario/Engine.antt =====
-- test-suites/helpers/scenario-engine.ts: the actions of a story, by name. An argument of an action is
-- a text that may be missing. A user is an address; an index that names no user throws where the user
-- is looked up, and in the source at the first use of the user, which every action makes before it
-- sends anything. The texts that are thrown are those of the source but for the names of the action
-- and of the reserve in them.
pub mod Arguments
use text.Mathlib.Text.{◌==◌ as str_eq}
use rasa_lending_platform_sm.Prelude.{
  Bool, String, Option, none, some, List, [], ◌∷◌, if◌then◌else◌,
}
use rasa_lending_platform_sm.Prelude.Int.{pos, ◌+ℤ◌}
use rasa_lending_platform_sm.Prelude.Result.{
  Error, Result, ok, err, defined, undefined_value, thrown,
}
use rasa_lending_platform_sm.Scenario.Chain.{Chain, Run, pure, lift, throw, continue, ◌>>=◌, ◌>>◌}
use rasa_lending_platform_sm.Scenario.ParseInt.{parse_int, parse_decimal, at_index}
use rasa_lending_platform_sm.Scenario.Actions.{given}
use rasa_lending_platform_sm.Scenario.Actions.Supply.{
  mint, approve, deposit, supply_with_permit, withdraw,
}
use rasa_lending_platform_sm.Scenario.Actions.Debt.{
  delegate_borrow_allowance, borrow, repay, repay_with_permit,
}
use rasa_lending_platform_sm.Scenario.Actions.Settings.{
  set_use_as_collateral, swap_borrow_rate_mode, rebalance_stable_borrow_rate,
}

pub record Args : Type 0 where
  pub reserve : Option String
  pub user : Option String
  pub borrow_rate_mode : Option String
  pub amount : Option String
  pub send_value : Option String
  pub on_behalf_of : Option String
  pub time_travel : Option String
  pub to_user : Option String
  pub use_as_collateral : Option String
  pub target : Option String

pub record Action : Type 0 where
  pub name : Option String
  pub args : Args
  pub expected : Option String
  pub revert_message : Option String

pub record Story : Type 0 where
  pub description : String
  pub actions : List Action

-- The accounts of the test environment and the private keys of the test wallets.
pub record Accounts : Type 0 where
  pub users : List String
  pub wallets : List String

-- `if (!text || text === '') throw ...`.
unfoldable pub required : Option String → String → Result String
required none message = err (thrown message)
required (some text) message = if str_eq text "" then err (thrown message) else ok text

-- An unknown mode gives 4, to test what the contracts make of it.
unfoldable pub rate_mode_of : Option String → String
rate_mode_of none = "0"
rate_mode_of (some text) =
    if str_eq text ""
    then "0"
    else if str_eq text "none"
    then "0"
    else if str_eq text "stable"
    then "1"
    else if str_eq text "variable"
    then "2"
    else "4"

-- `users[parseInt(index)]`, where it is used.
unfoldable pub user_at : List String → Option String → Result String
user_at users none = err undefined_value
user_at users (some index) = defined (at_index users (parse_int index))

-- `getTestWallets()[parseInt(userIndex) + 1].secretKey`.
unfoldable pub private_key_at : List String → String → Result String
private_key_at wallets index = elim (parse_int index) [
  | none ↦ err undefined_value
  | some n ↦ defined (at_index wallets (some (n +ℤ pos 1)))
]

-- The other user, if an index is given, or else the user.
unfoldable pub on_behalf_of_or : List String → Option String → String → Result String
on_behalf_of_or users index user = if given index then user_at users index else ok user

module _ (c : Chain) (accounts : Accounts) where
  open c use {State}

  -- The second half of the `switch`: a user's debt, and the settings of a position.
  unfoldable pub perform_on_position :
      Args → String → String → String → String → String → String → Run State (Unit {0})
  perform_on_position args name reserve user private_key mode expected =
      if str_eq name "borrow"
      then (do
        on_behalf_of ← lift (on_behalf_of_or accounts.users args.on_behalf_of user)
        amount ← lift (required args.amount "Invalid amount to borrow")
        borrow c reserve amount mode user on_behalf_of args.time_travel expected)
      else if str_eq name "repay"
      then (do
        amount ← lift (required args.amount "Invalid amount to repay")
        on_behalf_of ← lift (on_behalf_of_or accounts.users args.on_behalf_of user)
        repay c reserve amount mode user on_behalf_of args.send_value expected args.time_travel)
      else if str_eq name "repayWithPermit"
      then (do
        amount ← lift (required args.amount "Invalid amount to repay")
        on_behalf_of ← lift (on_behalf_of_or accounts.users args.on_behalf_of user)
        repay_with_permit c reserve amount mode user private_key on_behalf_of args.send_value
            expected)
      else if str_eq name "setUseAsCollateral"
      then (do
        use_as_collateral ←
            lift (required args.use_as_collateral "A valid value for useAsCollateral is needed")
        set_use_as_collateral c reserve user use_as_collateral expected)
      else if str_eq name "swapBorrowRateMode"
      then swap_borrow_rate_mode c reserve user mode expected
      else if str_eq name "rebalanceStableBorrowRate"
      then (do
        index ← lift (required args.target "A target must be selected")
        target ← lift (user_at accounts.users (some index))
        rebalance_stable_borrow_rate c reserve user target expected)
      else throw (thrown "Invalid action requested")

  -- The `switch`, once the common arguments are there.
  unfoldable pub perform :
      Args
      → Option String
      → String
      → String
      → String
      → String
      → String
      → String
      → Run State (Unit {0})
  perform args revert_message name reserve user private_key mode expected =
      if str_eq name "mint"
      then (do
        amount ← lift (required args.amount "Invalid amount to mint")
        mint c reserve amount user)
      else if str_eq name "approve"
      then approve c reserve user
      else if str_eq name "deposit"
      then (do
        on_behalf_of ← lift (on_behalf_of_or accounts.users args.on_behalf_of user)
        amount ← lift (required args.amount "Invalid amount to deposit")
        deposit c reserve amount user on_behalf_of args.send_value expected)
      else if str_eq name "supplyWithPermit"
      then (do
        on_behalf_of ← lift (on_behalf_of_or accounts.users args.on_behalf_of user)
        amount ← lift (required args.amount "Invalid amount to deposit")
        supply_with_permit c reserve amount user private_key on_behalf_of args.send_value expected)
      else if str_eq name "delegateBorrowAllowance"
      then (do
        to_user ← lift (decimal_user args.to_user)
        amount ← lift (required args.amount "Invalid amount to deposit")
        delegate_borrow_allowance c reserve amount mode user to_user expected revert_message)
      else if str_eq name "withdraw"
      then (do
        amount ← lift (required args.amount "Invalid amount to withdraw")
        withdraw c reserve amount user expected)
      else perform_on_position args name reserve user private_key mode expected
    where
      -- `users[parseInt(toUserIndex, 10)].address`.
      decimal_user : Option String → Result String
      decimal_user none = err undefined_value
      decimal_user (some index) = defined (at_index accounts.users (parse_decimal index))

  unfoldable pub execute_action : Action → Run State (Unit {0})
  execute_action action = do
    name ← lift (required action.name "Action name is missing")
    reserve ← lift (required action.args.reserve "Invalid reserve selected for deposit")
    index ← lift (required action.args.user "Invalid user selected to deposit")
    expected ← lift (required action.expected "An expected result is required")
    private_key ← lift (private_key_at accounts.wallets index)
    user ← lift (user_at accounts.users (some index))
    perform action.args action.revert_message name reserve user private_key
        (rate_mode_of action.args.borrow_rate_mode) expected

  unfoldable pub execute_actions : List Action → Run State (Unit {0})
  execute_actions [] = pure tt
  execute_actions (action ∷ rest) = do execute_action action; execute_actions rest

  abbrev pub execute_story : Story → Run State (Unit {0})
  execute_story story = execute_actions story.actions
