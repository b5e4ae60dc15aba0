-- ===== src/Scenario/Actions/TimeTravel.antt =====
-- The time travel of `borrow` and `repay` in test-suites/helpers/actions.ts.
use text.Mathlib.Text.{◌==◌ as str_eq}
use rasa_lending_platform_sm.Prelude.{
  arith, ◌+◌, ℕ, ◌*◌, ◌/◌, ◌^◌, ◌≡◌, refl, Bool, true, false, String, some, ltb, if◌then◌else◌,
}
use rasa_lending_platform_sm.Prelude.Int.{pos, ◌+ℤ◌, ◌*ℤ◌, tdiv, +ℤ-pos, *ℤ-pos, tdiv-pos, ltb_pos}
use rasa_lending_platform_sm.Prelude.Result.{ok, err, malformed}
use rasa_lending_platform_sm.Calculations.Interest.{one_year}
use rasa_lending_platform_sm.Scenario.Chain.{Chain, lift, continue}
use rasa_lending_platform_sm.Scenario.Actions.{to_number, travel}

days_of_year : (d : ℕ) → tdiv (pos d *ℤ pos one_year) (pos 365) ≡ pos (d * 86400)
days_of_year d =
    let exact : d * 31536000 / 365 ≡ d * 86400 = omega arith in
    rw (*ℤ-pos d one_year, tdiv-pos (d * one_year) 365, exact) refl

to_number-pos : (n : ℕ) → to_number (pos n) ≡ (if ltb n (2 ^ 53) then ok (pos n) else err malformed)
to_number-pos n =
    let positive : ltb 0 (n + 2 ^ 53) ≡ true = ground arith in
    rw (+ℤ-pos n (2 ^ 53), ltb_pos n (2 ^ 53), ltb_pos 0 (n + 2 ^ 53), positive) refl

module _ (c : Chain) where
  open c use {State, latest_timestamp, mine_at, big_number}

  -- A time travel by a text that is not empty and that ethers reads as `d` days sets the time to the
  -- latest one and `d * 86400` seconds if that many are below 2^53, and throws otherwise.
  pub travel_days :
      (text : String) (d : ℕ) (s : State)
      → str_eq text "" ≡ false
      → big_number text ≡ ok (pos d)
      → travel c (some text) s ≡ (
          if ltb (d * 86400) (2 ^ 53)
          then ok (tt, mine_at s (latest_timestamp s +ℤ pos (d * 86400)))
          else err malformed)
  unfolding travel
  travel_days text d s given spelled =
      rw (given, spelled, days_of_year d, to_number-pos (d * 86400))
        (by_test (ltb (d * 86400) (2 ^ 53)))
    where
      by_test :
          (b : Bool)
          → continue
              (λ seconds s'. ok (tt, mine_at s' (latest_timestamp s' +ℤ seconds)))
              (lift (if b then ok (pos (d * 86400)) else err malformed) s)
            ≡ (if b
                then ok (tt, mine_at s (latest_timestamp s +ℤ pos (d * 86400)))
                else err malformed)
      by_test true = refl
      by_test false = refl
