-- ===== src/Scenario/Actions/Reads.antt =====
-- The steps of test-suites/helpers/actions.ts that only read the chain.
use text.Mathlib.Text.{◌==◌ as str_eq}
use rasa_lending_platform_sm.Helpers.{get_reserve_data}
use rasa_lending_platform_sm.Prelude.{
  ◌≡◌, ℕ, zero, suc, Bool, true, false, String, Option, none, some, if◌then◌else◌,
}
use rasa_lending_platform_sm.Prelude.Int.{ℤ, pos}
use rasa_lending_platform_sm.Prelude.Result.{Error, thrown, Result, ok, err, missing_deployment}
use rasa_lending_platform_sm.Calculations.Liquidity.{max_uint_amount}
use rasa_lending_platform_sm.Scenario.Chain.{
  Receipt, Chain, Run, pure, lift, asks, throw, ◌>>=◌, continue-eq-ok,
}
use rasa_lending_platform_sm.Scenario.Chain.Reading.{Reads, pure-Reads, asks-Reads, >>=-Reads}
use rasa_lending_platform_sm.Scenario.Actions.{
  reserve_address, convert_to_currency_decimals, value_to_send, amount_or_all, get_contracts_data,
  cost_and_timestamp, get_tx_cost_and_timestamp,
}
use rasa_lending_platform_sm.Scenario.Actions.Debt.{debt_token}
use rasa_lending_platform_sm.Scenario.Actions.Passing.{lift-eq-ok}

throw-Reads : (S A : Type 0) (e : Error) → Reads {S = S} {A = A} (throw e)
unfolding Reads
throw-Reads S A e s t a h = cc

if-Reads :
    {S A : Type 0} (b : Bool) (m k : Run S A) → Reads m → Reads k → Reads (if b then m else k)
if-Reads true m k f g = f
if-Reads false m k f g = g

module _ (c : Chain) where
  open c use {
    State, testnet_token, decimals, reserve_answers, parse_units, stable_debt_token,
    variable_debt_token,
  }

  pub reserve_address-Reads : (symbol : String) → Reads (reserve_address c symbol)
  unfolding Reads reserve_address
  reserve_address-Reads symbol s t a = found (testnet_token s symbol)
    where
      found :
          (o : Option String)
          → (elim o as (λ k. Result (String × State)) [
            | none ↦ err missing_deployment
            | some address ↦ ok (address, s)
          ])
            ≡ ok (a, t)
          → s ≡ t
      found none e = cc
      found (some address) e = cc

  pub convert_to_currency_decimals-Reads :
      (token amount : String) → Reads (convert_to_currency_decimals c token amount)
  unfolding Reads convert_to_currency_decimals
  convert_to_currency_decimals-Reads token amount s t a e =
      (lift-eq-ok (parse_units amount (decimals s token)) s e).1

  pub amount_or_all-Reads : (token amount : String) → Reads (amount_or_all c token amount)
  unfolding amount_or_all
  amount_or_all-Reads token amount =
      if-Reads (str_eq amount "-1") (pure (pos max_uint_amount))
        (convert_to_currency_decimals c token amount) (pure-Reads _ (pos max_uint_amount))
        (convert_to_currency_decimals-Reads token amount)

  pub value_to_send-Reads :
      (token : String) (value : Option String) → Reads (value_to_send c token value)
  unfolding value_to_send
  value_to_send-Reads token none = pure-Reads _ none
  value_to_send-Reads token (some text) =
      if-Reads (str_eq text "") (pure none)
        (do value ← convert_to_currency_decimals c token text; pure (some value))
        (pure-Reads _ none)
        (>>=-Reads (convert_to_currency_decimals c token text) (λ value. pure (some value))
          (convert_to_currency_decimals-Reads token text) (λ v. pure-Reads _ (some v)))

  pub get_contracts_data-Reads :
      (reserve user sender : String) → Reads (get_contracts_data c reserve user sender)
  unfolding Reads get_contracts_data
  get_contracts_data-Reads reserve user sender s t a e =
      let (d, u, read, rest) =
        continue-eq-ok _ (lift (get_reserve_data reserve (reserve_answers s reserve)) s) e in
      let same : s ≡ u =
        (lift-eq-ok (get_reserve_data reserve (reserve_answers s reserve)) s read).1 in
      let last : u ≡ t = cc in cc

  pub debt_token-Reads : (reserve mode : String) → Reads (debt_token c reserve mode)
  unfolding debt_token
  debt_token-Reads reserve mode =
      if-Reads (str_eq mode "1") (asks (λ s. stable_debt_token s reserve))
        (asks (λ s. variable_debt_token s reserve)) (asks-Reads (λ s. stable_debt_token s reserve))
        (asks-Reads (λ s. variable_debt_token s reserve))

  pub get_tx_cost_and_timestamp-Reads : (tx : Receipt) → Reads (get_tx_cost_and_timestamp c tx)
  unfolding Reads cost_and_timestamp get_tx_cost_and_timestamp
  get_tx_cost_and_timestamp-Reads tx =
      stamp tx.block_number tx.transaction_hash tx.cumulative_gas_used
    where
      stamp :
          (n : Option ℕ) (hash : Option String) (gas : Option ℤ)
          → Reads (cost_and_timestamp c tx n hash gas)
      stamp none hash gas s t a e = cc
      stamp (some zero) hash gas s t a e = cc
      stamp (some (suc n)) none gas s t a e = cc
      stamp (some (suc n)) (some hash) none s t a e = cc
      stamp (some (suc n)) (some hash) (some gas) s t a e =
          if-Reads (str_eq hash "") (throw (thrown "No tx blocknumber")) _
            (throw-Reads _ _ (thrown "No tx blocknumber")) (λ s' t' a' e'. cc) s t a e
