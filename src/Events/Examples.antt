-- ===== src/Events/Examples.antt =====
-- The theorems on the events at a small token: a supply of 11 at an index of 1.1, by an account that holds a
-- scaled balance of 10.
use text.Mathlib.Text.{◌==◌ as str_eq}
use rasa_lending_platform_sm.Prelude.{
  arith, ◌+◌, ℕ, zero, ◌*◌, ◌/◌, ◌==◌, ◌≡◌, refl, false, true, not, String, Option, none, some,
  List, [], ◌∷◌, if◌then◌else◌,
}
use rasa_lending_platform_sm.Prelude.Int.{ℤ, pos, ◌+ℤ◌, ◌-ℤ◌, ◌*ℤ◌, tdiv}
use rasa_lending_platform_sm.Prelude.Result.{Result, ok, err, malformed, quotient}
use rasa_lending_platform_sm.WadRayMath.{ray, ray_mul, ray_div}
use rasa_lending_platform_sm.Scenario.Chain.{Receipt}
use rasa_lending_platform_sm.Scenario.Examples.SmallChain.{small_chain, receipt}
use rasa_lending_platform_sm.Events.{number, plain, Arg, item, values, Log, Interface, Ethers}
use rasa_lending_platform_sm.Events.Tokens.{TokenCall, Tokens, get_balance_increase}
use rasa_lending_platform_sm.Events.Tokens.Scaled.{
  supply, supply_events, withdraw_events, transfer_events, variable_borrow_events,
  repay_variable_events,
}
use rasa_lending_platform_sm.Events.Tokens.Stable.{
  StableAnswers, stable_borrow_events, repay_stable_events,
}
use rasa_lending_platform_sm.Events.Tokens.Balance.{accrued, events_balance}
use rasa_lending_platform_sm.Events.Tokens.Changes.{created, Balances}
use rasa_lending_platform_sm.Events.Tokens.Accounting.{IsWithinOne, created-balance}

abbrev read_big_number : Arg → Result ℤ
read_big_number (item (number n)) = ok n
read_big_number (item (plain t)) = err malformed
read_big_number (values is) = err malformed

abbrev small_ethers : Ethers
small_ethers = record {
  keccak256 = λ t. t;
  big_number = read_big_number;
  decimal = λ n. "a number";
}

abbrev index : ℕ
index = 11 * (ray / 10)

-- The logs of the supply, and their arguments.
abbrev log_of : String → String → String → Log
log_of address sig content = record { address = address; topics = sig ∷ []; content = content }

abbrev supply_logs : List Log
supply_logs =
    log_of "0xdai" "Transfer(address,address,uint256)" "underlying"
    ∷ log_of "0xrsdai" "Transfer(address,address,uint256)" "created"
    ∷ log_of "0xrsdai" "Mint(address,address,uint256,uint256,uint256)" "minted"
    ∷ []

abbrev args_of : String → List Arg
args_of content =
    if str_eq content "underlying"
    then item (plain "0xalice") ∷ item (plain "0xrsdai") ∷ item (number (pos 11)) ∷ []
    else if str_eq content "created"
    then item (plain "0x0000000000000000000000000000000000000000")
      ∷ item (plain "0xalice")
      ∷ item (number (pos 12))
      ∷ []
    else item (plain "0xalice")
      ∷ item (plain "0xalice")
      ∷ item (number (pos 12))
      ∷ item (number (pos 1))
      ∷ item (number (pos index))
      ∷ []

abbrev small_interface : Interface
small_interface = record {
  events =
      "Approval(address,address,uint256)" ∷ "Transfer(address,address,uint256)"
      ∷ "Mint(address,address,uint256,uint256,uint256)" ∷ [];
  parse_log = λ log. ok (args_of log.content);
}

abbrev settle : ℕ → TokenCall → Option (Receipt × List Log × ℕ)
settle zero (TokenCall.supply underlying amount holder) = some (receipt, supply_logs, 1)
settle s call = none

abbrev small_tokens : Tokens
small_tokens = record {
  chain = record small_chain { parse_units = λ text places. ok (pos 11) };
  ethers = small_ethers;
  interface = λ kind. small_interface;
  token_of = λ s kind underlying. "0xrsdai";
  previous_index = λ s token user. pos ray;
  scaled_balance_of = λ s token user. pos 20;
  user_stable_rate = λ s token user. pos 0;
  principal_balance_of = λ s token user. pos 0;
  user_last_updated = λ s token user. pos 0;
  average_stable_rate = λ s token. pos 0;
  stable_supply = λ s token. pos 0;
  normalized_income = λ s underlying. pos index;
  normalized_variable_debt = λ s underlying. pos index;
  transact = λ s signer call. settle s call;
  has_repayment = λ logs token user holder amount. false;
}

abbrev grown : StableAnswers
grown = record {
  balance = pos 21;
  increase = pos 1;
  rate = pos 5;
  average = pos 5;
  total = pos 100;
}

eleven : ray_div (pos 11) (pos index) ≡ ok (pos 10)
unfolding ray_div quotient tdiv ◌+ℤ◌ ◌*ℤ◌
eleven = refl

-- Bob moves 11 from Alice to Carol at an index that stays, so that no interest is minted.
abbrev moved_args : String → List Arg
moved_args content =
    item (plain "0xalice")
    ∷ item (plain "0xcarol")
    ∷ item (number (pos (if str_eq content "moved" then 11 else 10)))
    ∷ (if str_eq content "moved" then [] else item (number (pos index)) ∷ [])

abbrev moved_interface : Interface
moved_interface = record {
  events =
      "Transfer(address,address,uint256)" ∷ "BalanceTransfer(address,address,uint256,uint256)" ∷ [];
  parse_log = λ log. ok (moved_args log.content);
}

abbrev moved_logs : List Log
moved_logs =
    log_of "0xrsdai" "Transfer(address,address,uint256)" "moved"
    ∷ log_of "0xrsdai" "BalanceTransfer(address,address,uint256,uint256)" "scaled"
    ∷ []

abbrev moved_tokens : Tokens
moved_tokens = record small_tokens {
  interface = λ kind. moved_interface;
  previous_index = λ s token user. pos index;
  transact = λ s signer call. if s == 0 then some (receipt, moved_logs, 1) else none;
}

events_balance_example :
    Balances
      (supply_events "0xalice" "0xbob" "0xdai" "0xrsdai" (pos 11) (pos 1) (pos index))
      (pos 11 +ℤ pos 1)
    × Balances
        (withdraw_events "0xbob" "0xcarol" "0xdai" "0xrsdai" (pos 11) (pos 1) (pos index))
        (pos 1 -ℤ pos 11)
    × Balances
        (transfer_events "0xalice" "0xbob" "0xcarol" "0xrsdai"
          (pos 11)
          (pos 10)
          (pos 1)
          (pos 2)
          (pos index))
        (accrued true (pos 1) +ℤ accrued (not (str_eq "0xbob" "0xcarol")) (pos 2))
    × Balances
        (variable_borrow_events "0xalice" "0xbob" "0xdai" "0xrsdai" "0xdebt"
          (pos 11)
          (pos 1)
          (pos index))
        (pos 11 +ℤ pos 1)
    × Balances
        (repay_variable_events "0xalice" "0xbob" "0xdai" "0xrsdai" "0xdebt"
          (pos 11)
          (pos 1)
          (pos index))
        (pos 1 -ℤ pos 11)
    × Balances
        (stable_borrow_events "0xalice" "0xbob" "0xdai" "0xrsdai" "0xdebt" (pos 11) grown)
        (pos 11 +ℤ pos 1)
    × Balances
        (repay_stable_events "0xalice" "0xbob" "0xdai" "0xrsdai" "0xdebt" (pos 11) grown)
        (pos 1 -ℤ pos 11)
events_balance_example =
    events_balance "0xalice" "0xbob" "0xcarol" "0xdai" "0xrsdai" "0xdebt" (pos 11) (pos 10) (pos 1)
      (pos 2) (pos index) grown refl refl

created-balance_example :
    IsWithinOne (ray_mul (pos (10 + 10)) (pos index)) (
      ray_mul (pos 10) (pos ray)
      +ℤ created (
          supply_events "0xalice" "0xbob" "0xdai" "0xrsdai"
            (pos 11)
            (get_balance_increase (pos (10 + 10) -ℤ pos 10) (pos ray) (pos index))
            (pos index)))
    × IsWithinOne (ray_mul (pos 10) (pos index)) (
        ray_mul (pos (10 + 10)) (pos ray)
        +ℤ created (
            withdraw_events "0xbob" "0xcarol" "0xdai" "0xrsdai"
              (pos 11)
              (get_balance_increase (pos 10 +ℤ pos 10) (pos ray) (pos index))
              (pos index)))
created-balance_example =
    created-balance "0xalice" "0xbob" "0xcarol" "0xdai" "0xrsdai" 11 index ray 10 10 (omega arith)
      (omega arith) eleven refl
