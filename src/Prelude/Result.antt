-- ===== src/Prelude/Result.antt =====
-- What a call returns or throws.
use Prim.Native.String.{String}
use mathlib.Core.Path.{◌≡◌, refl}
use mathlib.Core.Bool.{Bool, true, false}
use mathlib.Core.Option.{Option, none, some}
use rasa_lending_platform_sm.Prelude.Tests.{if◌then◌else◌}
use rasa_lending_platform_sm.Prelude.Int.{ℤ, pos, tdiv, eqb_ℤ}

-- `undefined_value` is the TypeError of a use of `undefined`, `assertion_failed` that of chai,
-- `reverted` the rejection of a transaction, `malformed` that of a text that is no number, and
-- `missing_deployment` that of hardhat-deploy. `thrown` holds the text that the code throws.
pub data Error : Type 0 where
  division_by_zero undefined_value assertion_failed reverted malformed missing_deployment : Error
  thrown : String → Error

-- What the code throws stays outside of what it returns.
pub data Result {ℓ} (T : Type ℓ) : Type ℓ where
  err : Error → Result T
  ok : T → Result T

-- The sequence of two calls, as an abbreviation: a call that returned gives way to the next.
infixl 5 ◌>>=◌ ◌>>◌
abbrev pub ◌>>=◌ {ℓ m} : {S : Type ℓ} {T : Type m} → Result S → (S → Result T) → Result T
err why >>= next = err why
ok value >>= next = next value

-- `expect(...)`: what comes after an assertion runs if it holds.
abbrev pub guard : Bool → Error → Result (Unit {0})
guard false why = err why
guard true _ = ok tt

abbrev pub ◌>>◌ {ℓ} : {T : Type ℓ} → Result (Unit {0}) → Result T → Result T
check >> next = check >>= λ _. next

-- The value of a field, in a place that needs one: a use of `undefined` throws.
abbrev pub defined {ℓ} : {A : Type ℓ} → Option A → Result A
defined none = err undefined_value
defined (some a) = ok a

-- `a.div(b)`.
unfoldable pub quotient : ℤ → ℤ → Result ℤ
quotient a b = if eqb_ℤ b (pos 0) then err division_by_zero else ok (tdiv a b)

-- A sequence that returned has a first call that returned: for proofs that keep the calls shut.
pub >>=-eq-ok {ℓ m} :
    {S : Type ℓ} {T : Type m} (call : Result S) (next : S → Result T) {final : T}
    → (call >>= next) ≡ ok final
    → (value : S) × (call ≡ ok value) × (next value ≡ ok final)
>>=-eq-ok (err why) next e = cc
>>=-eq-ok (ok value) next e = (value, refl, e)
