-- ===== src/Events/Tokens/Scaled.antt =====
-- test-suites/helpers/utils/tokenization-events.ts: supply, withdrawal and transfers of RSTokens, and
-- variable borrows and repayments.
use text.Mathlib.Text.{◌==◌ as str_eq}
use rasa_lending_platform_sm.Prelude.{
  Bool, true, not, ◌&&◌, String, List, [], ◌∷◌, ◌++◌, if◌then◌else◌,
}
use rasa_lending_platform_sm.Prelude.Int.{ℤ, pos, ◌+ℤ◌, ◌-ℤ◌, ltb_ℤ}
use rasa_lending_platform_sm.Prelude.Result.{assertion_failed, guard}
use rasa_lending_platform_sm.WadRayMath.{ray_div}
use rasa_lending_platform_sm.Setup.{zero_address}
use rasa_lending_platform_sm.Types.{RateMode}
use rasa_lending_platform_sm.Scenario.Chain.{Receipt, Run, pure, lift, asks, ◌>>=◌, ◌>>◌}
use rasa_lending_platform_sm.Scenario.Actions.{convert_to_currency_decimals}
use rasa_lending_platform_sm.Events.{Log}
use rasa_lending_platform_sm.Events.Tokens.{
  Kind, TokenCall, Tokens as Contracts, Event, get_balance_increase, transfer_event, scaled_event,
  balance_transfer_event, require_events, submit,
}

-- A supply: the underlying asset goes to the RSToken, and RSTokens are minted with the interest.
unfoldable pub supply_events : String → String → String → String → ℤ → ℤ → ℤ → List Event
supply_events user holder underlying token amount increase index =
    transfer_event Kind.underlying_token underlying user token amount
    ∷ transfer_event Kind.rs_token token zero_address holder (amount +ℤ increase)
    ∷ scaled_event Kind.rs_token token "Mint" user holder (amount +ℤ increase) increase index
    ∷ []

-- A withdrawal: the interest is minted if it is more than the amount, and else the rest is burned.
unfoldable pub withdraw_events : String → String → String → String → ℤ → ℤ → ℤ → List Event
withdraw_events user receiver underlying token amount increase index =
    transfer_event Kind.underlying_token underlying token receiver amount
    ∷ (if ltb_ℤ amount increase
        then transfer_event Kind.rs_token token zero_address user (increase -ℤ amount)
          ∷ scaled_event Kind.rs_token token "Mint" user user (increase -ℤ amount) increase index
          ∷ []
        else transfer_event Kind.rs_token token user zero_address (amount -ℤ increase)
          ∷ scaled_event Kind.rs_token token "Burn" user receiver (amount -ℤ increase) increase
              index
          ∷ [])

-- The interest of an account that a transfer touches is minted, if there is any.
unfoldable pub interest_events : Bool → String → String → String → ℤ → ℤ → List Event
interest_events touched token user holder increase index =
    if touched && ltb_ℤ (pos 0) increase
    then transfer_event Kind.rs_token token zero_address holder increase
      ∷ scaled_event Kind.rs_token token "Mint" user holder increase increase index
      ∷ []
    else []

-- A transfer of RSTokens from `origin` to `receiver`, by `user`.
unfoldable pub transfer_events : String → String → String → String → ℤ → ℤ → ℤ → ℤ → ℤ → List Event
transfer_events user origin receiver token amount scaled from_increase to_increase index =
    (transfer_event Kind.rs_token token origin receiver amount
      ∷ balance_transfer_event token origin receiver scaled index
      ∷ [])
    ++ interest_events true token user origin from_increase index
    ++ interest_events (not (str_eq origin receiver)) token user receiver to_increase index

-- A variable borrow: debt is minted with the interest.
unfoldable pub variable_borrow_events :
    String → String → String → String → String → ℤ → ℤ → ℤ → List Event
variable_borrow_events user holder underlying token debt amount increase index =
    transfer_event Kind.underlying_token underlying token user amount
    ∷ transfer_event Kind.variable_debt_token debt zero_address holder (amount +ℤ increase)
    ∷ scaled_event Kind.variable_debt_token debt "Mint" user holder (amount +ℤ increase) increase
        index
    ∷ []

unfoldable pub repay_variable_events :
    String → String → String → String → String → ℤ → ℤ → ℤ → List Event
repay_variable_events user holder underlying token debt amount increase index =
    transfer_event Kind.underlying_token underlying user token amount
    ∷ (if ltb_ℤ amount increase
        then transfer_event Kind.variable_debt_token debt zero_address holder (increase -ℤ amount)
          ∷ scaled_event Kind.variable_debt_token debt "Mint" holder holder (increase -ℤ amount)
              increase index
          ∷ []
        else transfer_event Kind.variable_debt_token debt holder zero_address (amount -ℤ increase)
          ∷ scaled_event Kind.variable_debt_token debt "Burn" holder zero_address
              (amount -ℤ increase) increase index
          ∷ [])

module _ (t : Contracts) where
  open t use {
    chain, token_of, previous_index, scaled_balance_of, normalized_income, normalized_variable_debt,
    has_repayment,
  }

  unfoldable pub supply : String → String → String → String → Run chain.State Receipt
  supply user underlying amount_to_convert on_behalf_of = do
    amount ← convert_to_currency_decimals chain underlying amount_to_convert
    token ← asks (λ s. token_of s Kind.rs_token underlying)
    before ← asks (λ s. previous_index s token on_behalf_of)
    (receipt, logs) ← submit t user (TokenCall.supply underlying amount on_behalf_of)
    after ← asks (λ s. normalized_income s underlying)
    added ← lift (ray_div amount after)
    held ← asks (λ s. scaled_balance_of s token on_behalf_of)
    lift (
        require_events t logs (
          supply_events user on_behalf_of underlying token amount
            (get_balance_increase (held -ℤ added) before after) after))
    pure receipt

  unfoldable pub withdraw : String → String → String → String → Run chain.State Receipt
  withdraw user underlying amount_to_convert receiver = do
    amount ← convert_to_currency_decimals chain underlying amount_to_convert
    token ← asks (λ s. token_of s Kind.rs_token underlying)
    before ← asks (λ s. previous_index s token user)
    (receipt, logs) ← submit t user (TokenCall.withdraw underlying amount receiver)
    after ← asks (λ s. normalized_income s underlying)
    added ← lift (ray_div amount after)
    held ← asks (λ s. scaled_balance_of s token user)
    lift (
        require_events t logs (
          withdraw_events user receiver underlying token amount
            (get_balance_increase (held +ℤ added) before after) after))
    pure receipt

  -- What a transfer and a transfer by another account check, once they are sent.
  unfoldable pub check_transfer :
      String → String → String → String → String → ℤ → ℤ → ℤ → List Log → Run chain.State (Unit {0})
  check_transfer user origin underlying token receiver amount from_before to_before logs = do
    after ← asks (λ s. normalized_income s underlying)
    added ← lift (ray_div amount after)
    from_held ← asks (λ s. scaled_balance_of s token origin)
    to_held ← asks (λ s. scaled_balance_of s token receiver)
    lift (
        let moved = if str_eq origin receiver then pos 0 else added in
        require_events t logs (
          transfer_events user origin receiver token amount added
            (get_balance_increase (from_held +ℤ moved) from_before after)
            (get_balance_increase (to_held -ℤ moved) to_before after) after))

  unfoldable pub transfer : String → String → String → String → Run chain.State Receipt
  transfer user underlying amount_to_convert receiver = do
    amount ← convert_to_currency_decimals chain underlying amount_to_convert
    token ← asks (λ s. token_of s Kind.rs_token underlying)
    from_before ← asks (λ s. previous_index s token user)
    to_before ← asks (λ s. previous_index s token receiver)
    (receipt, logs) ← submit t user (TokenCall.transfer token receiver amount)
    check_transfer user user underlying token receiver amount from_before to_before logs
    pure receipt

  unfoldable pub transfer_from :
      String → String → String → String → String → Run chain.State Receipt
  transfer_from user origin underlying amount_to_convert receiver = do
    amount ← convert_to_currency_decimals chain underlying amount_to_convert
    token ← asks (λ s. token_of s Kind.rs_token underlying)
    from_before ← asks (λ s. previous_index s token origin)
    to_before ← asks (λ s. previous_index s token receiver)
    (receipt, logs) ← submit t user (TokenCall.transfer_from token origin receiver amount)
    check_transfer user origin underlying token receiver amount from_before to_before logs
    pure receipt

  unfoldable pub variable_borrow : String → String → String → String → Run chain.State Receipt
  variable_borrow user underlying amount_to_convert on_behalf_of = do
    amount ← convert_to_currency_decimals chain underlying amount_to_convert
    token ← asks (λ s. token_of s Kind.rs_token underlying)
    debt ← asks (λ s. token_of s Kind.variable_debt_token underlying)
    before ← asks (λ s. previous_index s debt on_behalf_of)
    (receipt, logs) ←
        submit t user (TokenCall.borrow underlying amount RateMode.variable on_behalf_of)
    after ← asks (λ s. normalized_variable_debt s underlying)
    added ← lift (ray_div amount after)
    held ← asks (λ s. scaled_balance_of s debt on_behalf_of)
    lift (
        require_events t logs (
          variable_borrow_events user on_behalf_of underlying token debt amount
            (get_balance_increase (held -ℤ added) before after) after))
    pure receipt

  unfoldable pub repay_variable_borrow : String → String → String → String → Run chain.State Receipt
  repay_variable_borrow user underlying amount_to_convert on_behalf_of = do
    amount ← convert_to_currency_decimals chain underlying amount_to_convert
    token ← asks (λ s. token_of s Kind.rs_token underlying)
    debt ← asks (λ s. token_of s Kind.variable_debt_token underlying)
    before ← asks (λ s. previous_index s debt on_behalf_of)
    (receipt, logs) ←
        submit t user (TokenCall.repay underlying amount RateMode.variable on_behalf_of)
    lift (guard (has_repayment logs token user on_behalf_of amount) assertion_failed)
    after ← asks (λ s. normalized_variable_debt s underlying)
    added ← lift (ray_div amount after)
    held ← asks (λ s. scaled_balance_of s debt on_behalf_of)
    lift (
        require_events t logs (
          repay_variable_events user on_behalf_of underlying token debt amount
            (get_balance_increase (held +ℤ added) before after) after))
    pure receipt
