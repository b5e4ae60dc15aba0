-- ===== src/Events/Tokens/Balance.antt =====
-- The events that test-suites/helpers/utils/tokenization-events.ts expects add up.
use text.Mathlib.Text.{◌==◌ as str_eq}
use rasa_lending_platform_sm.Prelude.{
  ◌≡◌, refl, Bool, true, false, Bool-cases, not, inl, inr, ◌&&◌, String, if◌then◌else◌,
}
use rasa_lending_platform_sm.Prelude.Int.{ℤ, pos, ◌+ℤ◌, ◌-ℤ◌, ltb_ℤ, int_laws}
use rasa_lending_platform_sm.Setup.{zero_address}
use rasa_lending_platform_sm.Events.Tokens.Scaled.{
  supply_events, withdraw_events, interest_events, transfer_events, variable_borrow_events,
  repay_variable_events,
}
use rasa_lending_platform_sm.Events.Tokens.Stable.{
  StableAnswers, stable_borrow_events, repay_stable_events,
}
use rasa_lending_platform_sm.Events.Tokens.Changes.{
  Balances, ++-Balances, underlying-Balances, if-Balances,
}

pub supply-Balances :
    (user holder underlying token : String) (amount increase index : ℤ)
    → Balances
        (supply_events user holder underlying token amount increase index)
        (amount +ℤ increase)
unfolding supply_events
supply-Balances user holder underlying token amount increase index =
    (grind int_laws, grind int_laws)

pub withdraw-Balances :
    (user receiver underlying token : String) (amount increase index : ℤ)
    → str_eq user zero_address ≡ false
    → Balances
        (withdraw_events user receiver underlying token amount increase index)
        (increase -ℤ amount)
unfolding withdraw_events
withdraw-Balances user receiver underlying token amount increase index other =
    underlying-Balances underlying token receiver amount _ (increase -ℤ amount) (
      if-Balances (ltb_ℤ amount increase) _ _ (increase -ℤ amount) (grind int_laws, grind int_laws)
        (rw (other) (grind int_laws), grind int_laws))

-- What interest adds, if there is any.
abbrev pub accrued : Bool → ℤ → ℤ
accrued touched increase = if touched && ltb_ℤ (pos 0) increase then increase else pos 0

interest-Balances :
    (touched : Bool) (token user holder : String) (increase index : ℤ)
    → Balances (interest_events touched token user holder increase index) (accrued touched increase)
unfolding interest_events
interest-Balances touched token user holder increase index =
    elim (Bool-cases (touched && ltb_ℤ (pos 0) increase)) [
      | inl some_interest ↦ rw (some_interest) (grind int_laws, grind int_laws)
      | inr no_interest ↦ rw (no_interest) (refl, refl)
    ]

transfer-Balances :
    (user origin receiver token : String) (amount scaled from_increase to_increase index : ℤ)
    → str_eq origin zero_address ≡ false
    → str_eq receiver zero_address ≡ false
    → Balances
        (transfer_events user origin receiver token amount scaled from_increase to_increase index)
        (accrued true from_increase +ℤ accrued (not (str_eq origin receiver)) to_increase)
unfolding transfer_events
transfer-Balances user origin receiver token amount scaled from_increase to_increase index other
      other' =
    let (c, d) =
      ++-Balances (interest_events true token user origin from_increase index)
        (interest_events (not (str_eq origin receiver)) token user receiver to_increase index)
        (accrued true from_increase) (accrued (not (str_eq origin receiver)) to_increase)
        (interest-Balances true token user origin from_increase index)
        (interest-Balances (not (str_eq origin receiver)) token user receiver to_increase index) in
    (rw (other, other', c) (grind int_laws), rw (d) (grind int_laws))

variable_borrow-Balances :
    (user holder underlying token debt : String) (amount increase index : ℤ)
    → Balances
        (variable_borrow_events user holder underlying token debt amount increase index)
        (amount +ℤ increase)
unfolding variable_borrow_events
variable_borrow-Balances user holder underlying token debt amount increase index =
    (grind int_laws, grind int_laws)

repay_variable-Balances :
    (user holder underlying token debt : String) (amount increase index : ℤ)
    → str_eq holder zero_address ≡ false
    → Balances
        (repay_variable_events user holder underlying token debt amount increase index)
        (increase -ℤ amount)
unfolding repay_variable_events
repay_variable-Balances user holder underlying token debt amount increase index other =
    underlying-Balances underlying user token amount _ (increase -ℤ amount) (
      if-Balances (ltb_ℤ amount increase) _ _ (increase -ℤ amount) (grind int_laws, grind int_laws)
        (rw (other) (grind int_laws), grind int_laws))

stable_borrow-Balances :
    (user holder underlying token debt : String) (amount : ℤ) (after : StableAnswers)
    → Balances
        (stable_borrow_events user holder underlying token debt amount after)
        (amount +ℤ after.increase)
unfolding stable_borrow_events
stable_borrow-Balances user holder underlying token debt amount after =
    (grind int_laws, grind int_laws)

repay_stable-Balances :
    (user holder underlying token debt : String) (amount : ℤ) (after : StableAnswers)
    → str_eq holder zero_address ≡ false
    → Balances
        (repay_stable_events user holder underlying token debt amount after)
        (after.increase -ℤ amount)
unfolding repay_stable_events
repay_stable-Balances user holder underlying token debt amount after other =
    underlying-Balances underlying user token amount _ (after.increase -ℤ amount) (
      if-Balances (ltb_ℤ amount after.increase) _ _ (after.increase -ℤ amount)
        (grind int_laws, grind int_laws) (rw (other) (grind int_laws), grind int_laws))

-- For accounts other than the zero address, the transfers from and to the zero address that a transaction
-- must emit come to the same change as its mints less its burns. The change is the amount and the interest
-- for a supply and a borrow, the interest less the amount for a withdrawal and a repayment, and for a
-- transfer the interest of the sender, and that of another receiver, where it is above zero.
pub events_balance :
    (user holder receiver underlying token debt : String)
    (amount scaled increase other_increase index : ℤ) (after : StableAnswers)
    → str_eq holder zero_address ≡ false
    → str_eq receiver zero_address ≡ false
    → Balances
        (supply_events user holder underlying token amount increase index)
        (amount +ℤ increase)
      × Balances
          (withdraw_events holder receiver underlying token amount increase index)
          (increase -ℤ amount)
      × Balances
          (transfer_events user holder receiver token amount scaled increase other_increase index)
          (accrued true increase +ℤ accrued (not (str_eq holder receiver)) other_increase)
      × Balances
          (variable_borrow_events user holder underlying token debt amount increase index)
          (amount +ℤ increase)
      × Balances
          (repay_variable_events user holder underlying token debt amount increase index)
          (increase -ℤ amount)
      × Balances
          (stable_borrow_events user holder underlying token debt amount after)
          (amount +ℤ after.increase)
      × Balances
          (repay_stable_events user holder underlying token debt amount after)
          (after.increase -ℤ amount)
events_balance user holder receiver underlying token debt amount scaled increase other_increase
      index after is_holder is_receiver =
    (
      supply-Balances user holder underlying token amount increase index,
      withdraw-Balances holder receiver underlying token amount increase index is_holder,
      transfer-Balances user holder receiver token amount scaled increase other_increase index
          is_holder is_receiver,
      variable_borrow-Balances user holder underlying token debt amount increase index,
      repay_variable-Balances user holder underlying token debt amount increase index is_holder,
      stable_borrow-Balances user holder underlying token debt amount after,
      repay_stable-Balances user holder underlying token debt amount after is_holder,
    )
