-- ===== src/Scenario/Examples/Story.antt =====
-- A story of test-suites/helpers/scenario-engine.ts on a small chain, and the numbers in it.
use rasa_lending_platform_sm.Prelude.{arith, [], none, refl, some, ◌∷◌, ◌≡◌}
use rasa_lending_platform_sm.Prelude.Int.{pos, ◌+ℤ◌}
use rasa_lending_platform_sm.Prelude.Result.{ok}
use rasa_lending_platform_sm.Scenario.ParseInt.Decimal.{parse_int-numeral}
use rasa_lending_platform_sm.Scenario.Engine.{
  Action, Accounts, required, user_at, private_key_at, on_behalf_of_or, perform, execute_action,
  execute_actions,
}
use rasa_lending_platform_sm.Scenario.Engine.Arguments.{AllWellFormed, execute_actions-WellFormed}
use rasa_lending_platform_sm.Scenario.ParseInt.{
  digit_value, digits, is_space, more_digits, parse_int, prefixed, signed, skip_space,
}
use rasa_lending_platform_sm.Scenario.Examples.SmallChain.{read_number, small_chain}
use rasa_lending_platform_sm.Scenario.Examples.Actions.{supply_passes}

-- Thirty days.
thirty : read_number "30" ≡ ok (pos 30)
unfolding parse_int signed skip_space is_space prefixed digits more_digits digit_value
thirty = refl

forty_two : parse_int "42" ≡ some (pos 42)
forty_two = parse_int-numeral "42" 4 (2 ∷ []) (omega arith) refl

-- A story of one supply by the only user.
abbrev accounts : Accounts
accounts = record { users = "0xalice" ∷ []; wallets = "0xdeployer" ∷ "0xkey" ∷ [] }

abbrev supply_action : Action
supply_action = record {
  name = some "deposit";
  args = record {
    reserve = some "DAI";
    user = some "0";
    borrow_rate_mode = none;
    amount = some "1000";
    send_value = none;
    on_behalf_of = none;
    time_travel = none;
    to_user = none;
    use_as_collateral = none;
    target = none;
  };
  expected = some "success";
  revert_message = none;
}

story_passes : execute_actions small_chain accounts (supply_action ∷ []) 0 ≡ ok (tt, 1)
unfolding execute_actions execute_action required private_key_at user_at perform on_behalf_of_or
    parse_int signed skip_space is_space prefixed digits more_digits digit_value ◌+ℤ◌
story_passes = rw (supply_passes) refl

execute_actions-WellFormed_example : AllWellFormed small_chain accounts (supply_action ∷ [])
execute_actions-WellFormed_example =
    execute_actions-WellFormed small_chain accounts (supply_action ∷ []) 0 1 story_passes
