-- ===== src/Events/Tokens/Changes.antt =====
-- What the events of test-suites/helpers/utils/tokenization-events.ts change: the tokens that they create
-- and destroy.
use text.Mathlib.Text.{◌==◌ as str_eq}
use rasa_lending_platform_sm.Prelude.{
  ◌≡◌, refl, ◌∙◌, ap, Bool, true, false, String, List, [], ◌∷◌, ◌++◌, if◌then◌else◌,
}
use rasa_lending_platform_sm.Prelude.Int.{ℤ, pos, ◌+ℤ◌, ◌-ℤ◌, int_laws}
use rasa_lending_platform_sm.Setup.{zero_address}
use rasa_lending_platform_sm.Events.{number, plain, Arg, item, values}
use rasa_lending_platform_sm.Events.Tokens.{Kind, Event, transfer_event}

-- The arguments of an event, by their position.
abbrev text_of : Arg → String
text_of (item (plain t)) = t
text_of (item (number n)) = ""
text_of (values is) = ""

abbrev number_of : Arg → ℤ
number_of (item (number n)) = n
number_of (item (plain t)) = pos 0
number_of (values is) = pos 0

abbrev first : List Arg → Arg
first [] = values []
first (a ∷ rest) = a

abbrev rest_of : List Arg → List Arg
rest_of [] = []
rest_of (a ∷ rest) = rest

abbrev second : List Arg → Arg
second args = first (rest_of args)

abbrev third : List Arg → Arg
third args = first (rest_of (rest_of args))

-- The tokens that a `Transfer` of a token other than the underlying asset creates, from the zero address,
-- or destroys.
abbrev pub created_by : Kind → String → List Arg → ℤ
created_by Kind.underlying_token name args = pos 0
created_by kind name args =
    if str_eq name "Transfer"
    then (if str_eq (text_of (first args)) zero_address
        then number_of (third args)
        else if str_eq (text_of (second args)) zero_address
        then pos 0 -ℤ number_of (third args)
        else pos 0)
    else pos 0

-- The value of a `Mint`, and of a `Burn` with a minus sign: the second argument for a stable debt.
abbrev pub minted_by : Kind → String → List Arg → ℤ
minted_by kind name args =
    if str_eq name "Mint"
    then number_of (third args)
    else if str_eq name "Burn"
    then pos 0 -ℤ number_of (burned kind)
    else pos 0
  where
    burned : Kind → Arg
    burned Kind.stable_debt_token = second args
    burned Kind.underlying_token = third args
    burned Kind.rs_token = third args
    burned Kind.variable_debt_token = third args

abbrev pub created : List Event → ℤ
created [] = pos 0
created (ev ∷ events) = created_by ev.kind ev.name ev.args +ℤ created events

abbrev pub minted : List Event → ℤ
minted [] = pos 0
minted (ev ∷ events) = minted_by ev.kind ev.name ev.args +ℤ minted events

-- The transfers from and to the zero address, and the mints and burns, come to the same change.
abbrev pub Balances : List Event → ℤ → Type 0
Balances events change = (created events ≡ change) × (minted events ≡ change)

pub created-++ : (xs ys : List Event) → created (xs ++ ys) ≡ created xs +ℤ created ys
created-++ [] ys = grind int_laws
created-++ (ev ∷ xs) ys =
    ap (λ n. created_by ev.kind ev.name ev.args +ℤ n) (created-++ xs ys) ∙ grind int_laws

pub minted-++ : (xs ys : List Event) → minted (xs ++ ys) ≡ minted xs +ℤ minted ys
minted-++ [] ys = grind int_laws
minted-++ (ev ∷ xs) ys =
    ap (λ n. minted_by ev.kind ev.name ev.args +ℤ n) (minted-++ xs ys) ∙ grind int_laws

pub ++-Balances :
    (xs ys : List Event) (m n : ℤ) → Balances xs m → Balances ys n → Balances (xs ++ ys) (m +ℤ n)
++-Balances xs ys m n (c, d) (c', d') =
    (created-++ xs ys ∙ rw (c, c') refl, minted-++ xs ys ∙ rw (d, d') refl)

-- The transfer of the underlying asset creates no token.
pub underlying-Balances :
    (address sender receiver : String) (value : ℤ) (events : List Event) (n : ℤ)
    → Balances events n
    → Balances (transfer_event Kind.underlying_token address sender receiver value ∷ events) n
underlying-Balances address sender receiver value events n (c, d) = (grind int_laws, grind int_laws)

pub if-Balances :
    (b : Bool) (xs ys : List Event) (n : ℤ)
    → Balances xs n
    → Balances ys n
    → Balances (if b then xs else ys) n
if-Balances true xs ys n h k = h
if-Balances false xs ys n h k = k
