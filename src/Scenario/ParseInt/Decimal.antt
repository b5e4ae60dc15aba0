-- ===== src/Scenario/ParseInt/Decimal.antt =====
-- `parseInt` on the indices of test-suites/helpers/scenario-engine.ts.
use rasa_lending_platform_sm.Prelude.{
  arith, ℕ, ◌+◌, ◌*◌, ◌<◌, ◌≡◌, refl, Bool, ◌&&◌, ◌||◌, String, some, List, [], ◌∷◌, ltb, ◌==◌,
  true, false, if◌then◌else◌,
}
use rasa_lending_platform_sm.Prelude.Int.{pos}
use rasa_lending_platform_sm.Scenario.Actions.Settings.{codes}
use rasa_lending_platform_sm.Scenario.ParseInt.{
  is_space, skip_space, digit_value, more_digits, digits, prefixed, signed, parse_int,
  parse_decimal,
}

-- No letter x.
abbrev pub NoX : List ℕ → Type 0
NoX [] = Unit
NoX (c ∷ cs) = ((c == b'x' || c == b'X') ≡ false) × NoX cs

if-same : {A : Type 0} (a : A) (p q : Bool) (b : A) → q ≡ false → (if p && q then b else a) ≡ a
if-same a true true b h = cc
if-same a true false b h = refl
if-same a false q b h = refl

prefixed-NoX : (cs : List ℕ) → NoX cs → prefixed true cs ≡ prefixed false cs
unfolding prefixed
prefixed-NoX [] h = refl
prefixed-NoX (z ∷ []) h = refl
prefixed-NoX (z ∷ x ∷ cs) (_, (h, _)) =
    if-same (digits 10 (z ∷ x ∷ cs)) (z == b'0') (x == b'x' || x == b'X') (digits 16 cs) h

signed-NoX : (cs : List ℕ) → NoX cs → signed true cs ≡ signed false cs
unfolding signed
signed-NoX [] h = refl
signed-NoX (c ∷ cs) (h, rest) = rw (prefixed-NoX cs rest, prefixed-NoX (c ∷ cs) (h, rest)) refl

skip_space-NoX : (cs : List ℕ) → NoX cs → NoX (skip_space cs)
unfolding skip_space
skip_space-NoX [] h = tt
skip_space-NoX (c ∷ cs) (h, rest) = either (is_space c) (skip_space-NoX cs rest)
  where
    either : (b : Bool) → NoX (skip_space cs) → NoX (if b then skip_space cs else c ∷ cs)
    either true skipped = skipped
    either false skipped = (h, rest)

-- The radix matters to no text without an x.
pub parse_int-parse_decimal :
    (text : String) → NoX (codes text) → parse_int text ≡ parse_decimal text
unfolding parse_int parse_decimal
parse_int-parse_decimal text h =
    signed-NoX (skip_space (codes text)) (skip_space-NoX (codes text) h)

-- Ten times itself for each digit.
abbrev pub weight : List ℕ → ℕ
weight [] = 1
weight (d ∷ ds) = 10 * weight ds

-- The number that decimal digits spell.
abbrev pub value : List ℕ → ℕ
value [] = 0
value (d ∷ ds) = d * weight ds + value ds

abbrev pub AllDigits : List ℕ → Type 0
AllDigits [] = Unit
AllDigits (d ∷ ds) = (d < 10) × AllDigits ds

abbrev pub ascii : List ℕ → List ℕ
ascii [] = []
ascii (d ∷ ds) = (d + 48) ∷ ascii ds

digit_value-digit : (d : ℕ) → d < 10 → digit_value (d + 48) ≡ d
unfolding digit_value
digit_value-digit d h = ground arith

more_digits-ascii :
    (n : ℕ) (ds : List ℕ) → AllDigits ds → more_digits 10 n (ascii ds) ≡ n * weight ds + value ds
unfolding more_digits
more_digits-ascii n [] h = omega arith
more_digits-ascii n (d ∷ ds) (h, rest) =
    let step = more_digits-ascii (n * 10 + d) ds rest in
    let small : ltb d 10 ≡ true = ground arith in
    let spread : (n * 10 + d) * weight ds + value ds
        ≡ n * (10 * weight ds) + (d * weight ds + value ds) =
      grind arith in
    rw (digit_value-digit d h, small, step) spread

ascii-NoX : (ds : List ℕ) → AllDigits ds → NoX (ascii ds)
ascii-NoX [] h = tt
ascii-NoX (d ∷ ds) (h, rest) = (ground arith, ascii-NoX ds rest)

digits-ascii :
    (d : ℕ) (ds : List ℕ)
    → AllDigits (d ∷ ds)
    → prefixed false (ascii (d ∷ ds)) ≡ some (value (d ∷ ds))
unfolding prefixed digits
digits-ascii d [] (h, rest) =
    let small : ltb d 10 ≡ true = ground arith in
    let unit : d * 1 + 0 ≡ d = omega arith in rw (digit_value-digit d h, small, unit) refl
digits-ascii d (x ∷ ds) (h, rest) =
    let small : ltb d 10 ≡ true = ground arith in
    rw (digit_value-digit d h, small, more_digits-ascii d (x ∷ ds) rest) refl

-- The text of a numeral, one or more decimal digits, is read back as the number that they spell, each
-- digit with its power of ten; a leading 0 does not change the radix.
pub parse_int-numeral :
    (text : String) (d : ℕ) (ds : List ℕ)
    → AllDigits (d ∷ ds)
    → codes text ≡ ascii (d ∷ ds)
    → parse_int text ≡ some (pos (value (d ∷ ds)))
unfolding parse_decimal signed skip_space is_space
parse_int-numeral text d ds h e =
    let no_x : NoX (codes text) = rw (e) (ascii-NoX (d ∷ ds) h) in
    let no_space : is_space (d + 48) ≡ false = ground arith in
    let minus : (d + 48 == b'-') ≡ false = ground arith in
    let plus : (d + 48 == b'+') ≡ false = ground arith in
    rw (parse_int-parse_decimal text no_x, e, no_space, minus, plus, digits-ascii d ds h) refl
