-- ===== src/Scenario/ParseInt.antt =====
-- `parseInt` of JavaScript and the element of an array at its result, as
-- test-suites/helpers/scenario-engine.ts uses them: leading space, a sign, a radix of 16 after 0x, and
-- the longest run of digits. What has no digit is not a number, which is `none`.
pub mod Decimal
use rasa_lending_platform_sm.Prelude.{
  ℕ, zero, suc, ◌+◌, ◌-◌, ◌*◌, Bool, ◌&&◌, ◌||◌, String, Option, none, some, List, [], ◌∷◌, leb,
  ltb, ◌==◌, true, false, if◌then◌else◌,
}
use rasa_lending_platform_sm.Prelude.Int.{ℤ, pos, negsuc, sub_ℕ}
use rasa_lending_platform_sm.Scenario.Actions.Settings.{codes}

-- The white space and the line ends of JavaScript.
unfoldable pub is_space : ℕ → Bool
is_space c =
    (leb 9 c && leb c 13)
    || c == 32
    || c == 160
    || c == 5760
    || (leb 8192 c && leb c 8202)
    || c == 8232
    || c == 8233
    || c == 8239
    || c == 8287
    || c == 12288
    || c == 65279

unfoldable pub skip_space : List ℕ → List ℕ
unfolding is_space
skip_space [] = []
skip_space (c ∷ cs) = if is_space c then skip_space cs else c ∷ cs

-- The value of a digit; 36 if it is none.
unfoldable pub digit_value : ℕ → ℕ
digit_value c =
    if leb b'0' c && leb c b'9'
    then c - b'0'
    else if leb b'a' c && leb c b'z'
    then c - b'a' + 10
    else if leb b'A' c && leb c b'Z'
    then c - b'A' + 10
    else 36

-- The number that the run of digits spells, after digits that spell `n`.
unfoldable pub more_digits : ℕ → ℕ → List ℕ → ℕ
unfolding digit_value
more_digits radix n [] = n
more_digits radix n (c ∷ cs) =
    let rest : ℕ = more_digits radix (n * radix + digit_value c) cs in
    if ltb (digit_value c) radix then rest else n

unfoldable pub digits : ℕ → List ℕ → Option ℕ
unfolding more_digits
digits radix [] = none
digits radix (c ∷ cs) =
    if ltb (digit_value c) radix then some (more_digits radix (digit_value c) cs) else none

-- The prefix 0x is read only if no radix is given.
unfoldable pub prefixed : Bool → List ℕ → Option ℕ
unfolding digits
prefixed any (z ∷ x ∷ cs) =
    if any && z == b'0' && (x == b'x' || x == b'X') then digits 16 cs else digits 10 (z ∷ x ∷ cs)
prefixed any (z ∷ []) = digits 10 (z ∷ [])
prefixed any [] = none

abbrev negated : Option ℕ → Option ℤ
negated none = none
negated (some n) = some (sub_ℕ 0 n)

abbrev counted : Option ℕ → Option ℤ
counted none = none
counted (some n) = some (pos n)

unfoldable pub signed : Bool → List ℕ → Option ℤ
unfolding prefixed
signed any [] = none
signed any (c ∷ cs) =
    if c == b'-'
    then negated (prefixed any cs)
    else if c == b'+'
    then counted (prefixed any cs)
    else counted (prefixed any (c ∷ cs))

unfoldable pub parse_int : String → Option ℤ
unfolding skip_space signed
parse_int text = signed true (skip_space (codes text))

unfoldable pub parse_decimal : String → Option ℤ
unfolding skip_space signed
parse_decimal text = signed false (skip_space (codes text))

module _ {ℓ} {A : Type ℓ} where
  abbrev pub get_elem? : List A → ℕ → Option A
  get_elem? [] i = none
  get_elem? (x ∷ xs) zero = some x
  get_elem? (x ∷ xs) (suc i) = get_elem? xs i

  abbrev pub at_index : List A → Option ℤ → Option A
  at_index xs none = none
  at_index xs (some (pos i)) = get_elem? xs i
  at_index xs (some (negsuc i)) = none
