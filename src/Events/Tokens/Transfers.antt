-- ===== src/Events/Tokens/Transfers.antt =====
-- When `transferFrom` of test-suites/helpers/utils/tokenization-events.ts passes.
use text.Mathlib.Text.{◌==◌ as str_eq}
use rasa_lending_platform_sm.Prelude.{◌≡◌, String, some, List, if◌then◌else◌}
use rasa_lending_platform_sm.Prelude.Int.{ℤ, pos, ◌+ℤ◌, ◌-ℤ◌}
use rasa_lending_platform_sm.Prelude.Result.{Result, ok}
use rasa_lending_platform_sm.WadRayMath.{ray_div}
use rasa_lending_platform_sm.Scenario.Chain.{Receipt}
use rasa_lending_platform_sm.Events.{Log}
use rasa_lending_platform_sm.Events.Tokens.{
  Kind, TokenCall, Tokens as Contracts, get_balance_increase,
}
use rasa_lending_platform_sm.Events.Tokens.Scaled.{transfer_events, transfer_from}
use rasa_lending_platform_sm.Events.Tokens.Verdicts.{HasAll}

module _ (t : Contracts) where
  open t use {
    chain, ethers, interface, transact, token_of, previous_index, normalized_income,
    scaled_balance_of,
  }

  -- What the check of a transfer takes: the index after it is not zero, and the logs have the events.
  abbrev pub TransferChecked :
      String → String → String → String → String → ℤ → ℤ → ℤ → List Log → chain.State → Type 0
  TransferChecked user origin underlying token receiver amount from_before to_before logs s =
      let after = normalized_income s underlying in
      (added : ℤ) × (ray_div amount after ≡ ok added)
      × (let moved = if str_eq origin receiver then pos 0 else added in
          HasAll t logs (
            transfer_events user origin receiver token amount added
              (get_balance_increase (scaled_balance_of s token origin +ℤ moved) from_before after)
              (get_balance_increase (scaled_balance_of s token receiver -ℤ moved) to_before after)
              after))

  -- What a transfer by another account takes to pass, with the receipt and the state that it gives.
  abbrev pub TransferFromPasses :
      String → String → String → String → String → chain.State → Receipt × chain.State → Type 0
  TransferFromPasses user origin underlying amount_to_convert receiver s b =
      let token = token_of s Kind.rs_token underlying in
      (amount : ℤ) × (chain.parse_units amount_to_convert (chain.decimals s underlying) ≡ ok amount)
      × (receipt : Receipt) × (logs : List Log) × (s' : chain.State) × (transact s user
            (TokenCall.transfer_from token origin receiver amount)
          ≡ some (receipt, logs, s'))
      × TransferChecked user origin underlying token receiver amount (previous_index s token origin)
          (previous_index s token receiver) logs s'
      × (b ≡ (receipt, s'))
