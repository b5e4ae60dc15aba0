-- ===== src/Events/Tokens/Stable.antt =====
-- test-suites/helpers/utils/tokenization-events.ts: stable borrows and repayments.
use rasa_lending_platform_sm.Prelude.{String, List, [], ◌∷◌, if◌then◌else◌}
use rasa_lending_platform_sm.Prelude.Int.{ℤ, ◌+ℤ◌, ◌-ℤ◌, ltb_ℤ}
use rasa_lending_platform_sm.Calculations.Interest.{calc_expected_stable_debt_token_balance}
use rasa_lending_platform_sm.Setup.{zero_address}
use rasa_lending_platform_sm.Types.{RateMode}
use rasa_lending_platform_sm.Scenario.Chain.{Receipt, Run, pure, lift, asks, ◌>>=◌, ◌>>◌}
use rasa_lending_platform_sm.Scenario.Actions.{
  convert_to_currency_decimals, get_tx_cost_and_timestamp,
}
use rasa_lending_platform_sm.Events.Tokens.{
  Kind, TokenCall, Tokens as Contracts, Event, transfer_event, stable_mint_event, stable_burn_event,
  require_events, submit,
}

-- What the stable debt token answers after the transaction.
pub record StableAnswers : Type 0 where
  pub balance : ℤ
  pub increase : ℤ
  pub rate : ℤ
  pub average : ℤ
  pub total : ℤ

unfoldable pub stable_borrow_events :
    String → String → String → String → String → ℤ → StableAnswers → List Event
stable_borrow_events user holder underlying token debt amount after =
    transfer_event Kind.underlying_token underlying token user amount
    ∷ transfer_event Kind.stable_debt_token debt zero_address holder (amount +ℤ after.increase)
    ∷ stable_mint_event debt user holder (amount +ℤ after.increase) after.balance after.increase
        after.rate after.average after.total
    ∷ []

unfoldable pub repay_stable_events :
    String → String → String → String → String → ℤ → StableAnswers → List Event
repay_stable_events user holder underlying token debt amount after =
    transfer_event Kind.underlying_token underlying user token amount
    ∷ (if ltb_ℤ amount after.increase
        then transfer_event Kind.stable_debt_token debt zero_address holder
            (after.increase -ℤ amount)
          ∷ stable_mint_event debt holder holder (after.increase -ℤ amount) after.balance
              after.increase after.rate after.average after.total
          ∷ []
        else transfer_event Kind.stable_debt_token debt holder zero_address
            (amount -ℤ after.increase)
          ∷ stable_burn_event debt holder (amount -ℤ after.increase) after.balance after.increase
              after.average after.total
          ∷ [])

module _ (t : Contracts) where
  open t use {
    chain, token_of, user_stable_rate, principal_balance_of, user_last_updated, average_stable_rate,
    stable_supply,
  }

  -- The debt with its interest at the time of the transaction, and the token's answers after it.
  unfoldable pub stable_answers :
      String → String → ℤ → ℤ → ℤ → Receipt → Run chain.State StableAnswers
  stable_answers debt holder principal rate last_updated receipt = do
    cost ← get_tx_cost_and_timestamp chain receipt
    average ← asks (λ s. average_stable_rate s debt)
    rate_after ← asks (λ s. user_stable_rate s debt holder)
    total ← asks (λ s. stable_supply s debt)
    pure (
        let balance =
          calc_expected_stable_debt_token_balance principal rate last_updated cost.tx_timestamp in
        record {
          balance = balance;
          increase = balance -ℤ principal;
          rate = rate_after;
          average = average;
          total = total;
        })

  unfoldable pub stable_borrow : String → String → String → String → Run chain.State Receipt
  stable_borrow user underlying amount_to_convert on_behalf_of = do
    amount ← convert_to_currency_decimals chain underlying amount_to_convert
    token ← asks (λ s. token_of s Kind.rs_token underlying)
    debt ← asks (λ s. token_of s Kind.stable_debt_token underlying)
    rate ← asks (λ s. user_stable_rate s debt on_behalf_of)
    principal ← asks (λ s. principal_balance_of s debt on_behalf_of)
    last_updated ← asks (λ s. user_last_updated s debt on_behalf_of)
    (receipt, logs) ←
        submit t user (TokenCall.borrow underlying amount RateMode.stable on_behalf_of)
    after ← stable_answers debt on_behalf_of principal rate last_updated receipt
    lift (
        require_events t logs
          (stable_borrow_events user on_behalf_of underlying token debt amount after))
    pure receipt

  unfoldable pub repay_stable_borrow : String → String → String → String → Run chain.State Receipt
  repay_stable_borrow user underlying amount_to_convert on_behalf_of = do
    amount ← convert_to_currency_decimals chain underlying amount_to_convert
    token ← asks (λ s. token_of s Kind.rs_token underlying)
    debt ← asks (λ s. token_of s Kind.stable_debt_token underlying)
    principal ← asks (λ s. principal_balance_of s debt on_behalf_of)
    rate ← asks (λ s. user_stable_rate s debt on_behalf_of)
    last_updated ← asks (λ s. user_last_updated s debt on_behalf_of)
    (receipt, logs) ← submit t user (TokenCall.repay underlying amount RateMode.stable on_behalf_of)
    after ← stable_answers debt on_behalf_of principal rate last_updated receipt
    lift (
        require_events t logs
          (repay_stable_events user on_behalf_of underlying token debt amount after))
    pure receipt
