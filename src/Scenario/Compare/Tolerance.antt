-- ===== src/Scenario/Compare/Tolerance.antt =====
-- What the comparison of test-suites/helpers/actions.ts accepts.
use text.Mathlib.Text.{◌==◌ as str_eq}
use text.Mathlib.TextEquality.{eq_iff}
use rasa_lending_platform_sm.Prelude.{
  ◌≡◌, refl, ◌↔◌, Bool, true, false, Option, none, some, List, [], ◌∷◌, arith,
}
use rasa_lending_platform_sm.Prelude.Int.{ℤ, pos, ◌+ℤ◌, ◌≤ℤ◌, +ℤ_parts}
use rasa_lending_platform_sm.Prelude.Result.{Result, ok, err, ◌>>◌, guard, assertion_failed}
use rasa_lending_platform_sm.Calculations.Data.{ReserveData, UserReserveData}
use rasa_lending_platform_sm.Scenario.Compare.{
  almost_equal, compare_with, compare_numbers, same_flag, reserve_numbers, compare_reserves,
  user_numbers, last_user_numbers, compare_users,
}

-- Two numbers at most three apart.
abbrev pub Close : ℤ → ℤ → Type 0
Close a e = (a ≤ℤ e +ℤ pos 3) × (e ≤ℤ a +ℤ pos 3)

pub almost_equal_iff : (a e : ℤ) → (almost_equal a e ≡ true) ↔ Close a e
unfolding almost_equal
almost_equal_iff a e = (
  λ h. ground (
    arith,
    +ℤ_parts a (pos 1),
    +ℤ_parts e (pos 1),
    +ℤ_parts a (pos 2),
    +ℤ_parts e (pos 2),
    +ℤ_parts a (pos 3),
    +ℤ_parts e (pos 3),
  ),
  λ h. ground (
    arith,
    +ℤ_parts a (pos 1),
    +ℤ_parts e (pos 1),
    +ℤ_parts a (pos 2),
    +ℤ_parts e (pos 2),
    +ℤ_parts a (pos 3),
    +ℤ_parts e (pos 3),
  ),
)

-- What a value has to meet: nothing if the actual one is missing, and a related expected one otherwise.
abbrev pub Meets : {T : Type 0} → (T → T → Type 0) → Option T → Option T → Type 0
Meets P none e = Unit
Meets P (some a) none = ⊥
Meets P (some a) (some e) = P a e

abbrev pub AllMeet : List (Option ℤ) → List (Option ℤ) → Type 0
AllMeet [] es = Unit
AllMeet (a ∷ rest) [] = Unit
AllMeet (a ∷ rest) (e ∷ es) = Meets Close a e × AllMeet rest es

guarded_iff : {P : Type 0} (b : Bool) → (b ≡ true) ↔ P → (guard b assertion_failed ≡ ok tt) ↔ P
guarded_iff true h = (λ _. h.0 refl, λ _. refl)
guarded_iff false h = (λ e. cc, λ p. cc (h.1 p))

compare_with_iff :
    {T : Type 0} (test : T → T → Bool) (P : T → T → Type 0)
    → ((a e : T) → (test a e ≡ true) ↔ P a e)
    → (a e : Option T) → (compare_with test a e ≡ ok tt) ↔ Meets P a e
unfolding compare_with
compare_with_iff test P h none e = (λ _. tt, λ _. refl)
compare_with_iff test P h (some a) none = (λ e. cc, λ p. absurd p)
compare_with_iff test P h (some a) (some e) = guarded_iff (test a e) (h a e)

then_iff :
    {P Q : Type 0} (m k : Result (Unit {0}))
    → (m ≡ ok tt) ↔ P
    → (k ≡ ok tt) ↔ Q
    → ((m >> k) ≡ ok tt) ↔ (P × Q)
then_iff (ok u) k f g = (λ e. (f.0 refl, g.0 e), λ (p, q). g.1 q)
then_iff (err x) k f g = (λ e. cc, λ (p, q). cc (f.1 p))

compare_numbers_iff :
    (actual es : List (Option ℤ)) → (compare_numbers actual es ≡ ok tt) ↔ AllMeet actual es
unfolding compare_numbers
compare_numbers_iff [] es = (λ _. tt, λ _. refl)
compare_numbers_iff (a ∷ rest) [] = (λ _. tt, λ _. refl)
compare_numbers_iff (a ∷ rest) (e ∷ es) =
    then_iff (compare_with almost_equal a e) (compare_numbers rest es)
      (compare_with_iff almost_equal Close almost_equal_iff a e) (compare_numbers_iff rest es)

-- The reserves agree: their compared numbers are at most three apart, and their addresses are the same.
abbrev pub ReservesAgree : ReserveData → ReserveData → Type 0
ReservesAgree actual expected =
    AllMeet (reserve_numbers actual) (reserve_numbers expected)
    × Meets ◌≡◌ actual.address expected.address

pub compare_reserves_iff :
    (actual expected : ReserveData)
    → (compare_reserves actual expected ≡ ok tt) ↔ ReservesAgree actual expected
unfolding compare_reserves
compare_reserves_iff actual expected =
    then_iff (compare_numbers (reserve_numbers actual) (reserve_numbers expected))
      (compare_with str_eq actual.address expected.address)
      (compare_numbers_iff (reserve_numbers actual) (reserve_numbers expected))
      (compare_with_iff str_eq ◌≡◌ eq_iff actual.address expected.address)

same_flag_iff : (a e : Bool) → (same_flag a e ≡ true) ↔ (a ≡ e)
same_flag_iff true true = (λ _. refl, λ _. refl)
same_flag_iff true false = (λ h. cc, λ h. cc)
same_flag_iff false true = (λ h. cc, λ h. cc)
same_flag_iff false false = (λ _. refl, λ _. refl)

-- The users agree: their numbers are at most three apart, and their collateral flags are the same.
abbrev pub UsersAgree : UserReserveData → UserReserveData → Type 0
UsersAgree actual expected =
    AllMeet (user_numbers actual) (user_numbers expected)
    × (Meets ◌≡◌ actual.usage_as_collateral_enabled expected.usage_as_collateral_enabled
        × AllMeet (last_user_numbers actual) (last_user_numbers expected))

-- The comparison of two users passes exactly if each number that the actual one has is there in the
-- expected one, at most three units away, and the collateral flag, if it has one, is the same.
pub compare_users_iff :
    (actual expected : UserReserveData)
    → (compare_users actual expected ≡ ok tt) ↔ UsersAgree actual expected
unfolding compare_users
compare_users_iff actual expected =
    let flags =
      compare_with same_flag actual.usage_as_collateral_enabled
        expected.usage_as_collateral_enabled in
    let last = compare_numbers (last_user_numbers actual) (last_user_numbers expected) in
    then_iff (compare_numbers (user_numbers actual) (user_numbers expected)) (flags >> last)
      (compare_numbers_iff (user_numbers actual) (user_numbers expected))
      (then_iff flags last
        (compare_with_iff same_flag ◌≡◌ same_flag_iff actual.usage_as_collateral_enabled
          expected.usage_as_collateral_enabled)
        (compare_numbers_iff (last_user_numbers actual) (last_user_numbers expected)))
