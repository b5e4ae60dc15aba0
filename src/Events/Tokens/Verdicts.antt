-- ===== src/Events/Tokens/Verdicts.antt =====
-- What the functions of test-suites/helpers/utils/tokenization-events.ts accept.
use rasa_lending_platform_sm.Prelude.{◌≡◌, refl, ◌↔◌, String, Option, none, some, List, [], ◌∷◌}
use rasa_lending_platform_sm.Prelude.Int.{ℤ, ◌-ℤ◌}
use rasa_lending_platform_sm.Prelude.Result.{Result, ok, err, reverted, >>=-eq-ok}
use rasa_lending_platform_sm.WadRayMath.{ray_div}
use rasa_lending_platform_sm.Scenario.Chain.{Receipt, Run, lift, continue}
use rasa_lending_platform_sm.Events.{Log, sig_hash, match_event}
use rasa_lending_platform_sm.Events.Matching.{IsEmitted, match_event_iff}
use rasa_lending_platform_sm.Events.Tokens.{
  Kind, TokenCall, Tokens as Contracts, Event, get_balance_increase, require_events, submit,
}
use rasa_lending_platform_sm.Events.Tokens.Scaled.{supply_events, supply}

-- A result that is lifted leaves the state alone.
pub lift_iff :
    {A B S : Type 0} (r : Result A) (next : A → Run S B) (s : S) (b : B × S)
    → (continue next (lift r s) ≡ ok b) ↔ ((a : A) × (r ≡ ok a) × (next a s ≡ ok b))
lift_iff (ok a) next s b = (λ h. (a, refl, h), λ (a', e, h). let same : a ≡ a' = cc in rw (same) h)
lift_iff (err why) next s b = (λ h. cc, λ (a, e, h). cc)

module _ (t : Contracts) where
  open t use {
    chain, ethers, interface, transact, token_of, previous_index, normalized_income,
    scaled_balance_of,
  }

  -- The logs have the event: its contract knows its name, and the first log of that event and address whose
  -- arguments are not others has the expected ones.
  abbrev pub HasEvent : List Log → Event → Type 0
  HasEvent logs ev =
      (hash : String) × (sig_hash ethers ev.name (interface ev.kind).events ≡ some hash)
      × IsEmitted ethers (interface ev.kind) ev.name (some ev.address) (some ev.args) hash logs

  abbrev pub HasAll : List Log → List Event → Type 0
  HasAll logs [] = Unit {0}
  HasAll logs (ev ∷ events) = HasEvent logs ev × HasAll logs events

  pub require_events_iff :
      (logs : List Log) (events : List Event)
      → (require_events t logs events ≡ ok tt) ↔ HasAll logs events
  unfolding require_events
  require_events_iff logs [] = (λ _. tt, λ _. refl)
  require_events_iff logs (ev ∷ events) =
      let (one, one') =
        match_event_iff ethers (interface ev.kind) ev.name (some ev.address) (some ev.args) logs in
      let (others, others') = require_events_iff logs events in
      (
        λ h.
            let (_, first, rest) =
              >>=-eq-ok
                (match_event ethers (some logs) ev.name (interface ev.kind) (some ev.address)
                  (some ev.args))
                (λ _. require_events t logs events) h in
            (one first, others rest),
        λ (h, hs). rw (one' h) (others' hs),
      )

  pub submit_iff :
      {B : Type 0} (user : String) (call : TokenCall)
      (next : Receipt × List Log → Run chain.State B) (s : chain.State) (b : B × chain.State)
      → (continue next (submit t user call s) ≡ ok b) ↔ (
          (receipt : Receipt) × (logs : List Log) × (s' : chain.State) × (transact s user call
            ≡ some (receipt, logs, s'))
          × (next (receipt, logs) s' ≡ ok b))
  unfolding submit
  submit_iff user call next s b = (
    by_sent (transact s user call) refl,
    λ (receipt, logs, s', sent, h). rw (continue, submit, sent) h,
  )
    where
      by_sent :
          (o : Option (Receipt × List Log × chain.State))
          → transact s user call ≡ o
          → continue next (elim o as (λ _. Result ((Receipt × List Log) × chain.State)) [
            | none ↦ err reverted
            | some sent ↦ let (receipt, logs, s') = sent in ok ((receipt, logs), s')
          ])
            ≡ ok b
          → (receipt : Receipt) × (logs : List Log) × (s' : chain.State) × (transact s user call
              ≡ some (receipt, logs, s'))
            × (next (receipt, logs) s' ≡ ok b)
      by_sent none sent h = cc
      by_sent (some (receipt, logs, s')) sent h = (receipt, logs, s', sent, h)

  -- What a supply takes to pass, with the receipt and the state that it gives.
  abbrev pub SupplyPasses :
      String → String → String → String → chain.State → Receipt × chain.State → Type 0
  SupplyPasses user underlying amount_to_convert holder s b =
      (amount : ℤ) × (chain.parse_units amount_to_convert (chain.decimals s underlying) ≡ ok amount)
      × (receipt : Receipt) × (logs : List Log) × (s' : chain.State) × (transact s user
            (TokenCall.supply underlying amount holder)
          ≡ some (receipt, logs, s'))
      × (added : ℤ) × (ray_div amount (normalized_income s' underlying) ≡ ok added)
      × HasAll logs (
          supply_events user holder underlying (token_of s Kind.rs_token underlying) amount
            (get_balance_increase
              (scaled_balance_of s' (token_of s Kind.rs_token underlying) holder -ℤ added)
              (previous_index s (token_of s Kind.rs_token underlying) holder)
              (normalized_income s' underlying))
            (normalized_income s' underlying))
      × (b ≡ (receipt, s'))
