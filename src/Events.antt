-- ===== src/Events.antt =====
-- test-suites/helpers/utils/helpers.ts, `matchEvent`: the search for an event in the logs of a receipt.
-- ethers is a parameter: the hash, the reading of numbers, and the parsing of a log by a contract's
-- interface. An argument of an event is a `BigNumber`, a text (an address or bytes), or an array of these.
pub mod Matching
pub mod Tokens
mod Examples
use Prim.Native.String.{len, slice, ◌++◌ as append}
use text.Mathlib.Text.{◌==◌ as str_eq, starts_with}
use rasa_lending_platform_sm.Prelude.{
  ℕ, ◌+◌, ◌==◌, Bool, true, false, ◌&&◌, ◌||◌, String, Option, none, some, List, [], ◌∷◌,
  if◌then◌else◌,
}
use rasa_lending_platform_sm.Prelude.Int.{ℤ, eqb_ℤ}
use rasa_lending_platform_sm.Prelude.Result.{
  Result, ok, err, undefined_value, malformed, thrown, ◌>>=◌,
}

pub data Item : Type 0 where
  number : ℤ → Item
  plain : String → Item

pub data Arg : Type 0 where
  item : Item → Arg
  values : List Item → Arg

pub record Log : Type 0 where
  pub address : String
  pub topics : List String
  pub content : String

-- `eventContract.interface`: the keys of its events, and `parseLog`.
pub record Interface : Type 0 where
  pub events : List String
  pub parse_log : Log → Result (List Arg)

-- `keccak256` of a text's bytes, `BigNumber.from`, and the text of a `BigNumber`.
pub record Ethers : Type 0 where
  pub keccak256 : String → String
  pub big_number : Arg → Result ℤ
  pub decimal : ℤ → String

abbrev pub count : List Arg → ℕ
count [] = 0
count (a ∷ rest) = count rest + 1

abbrev pub quoted : String → String → String → String
quoted before name after = append before (append name after)

abbrev printed : Option String → String
printed none = "undefined"
printed (some address) = address

module _ (e : Ethers) where
  open e use {keccak256, big_number, decimal}

  -- JavaScript's text of a value.
  abbrev text_of_item : Item → String
  text_of_item (number n) = decimal n
  text_of_item (plain t) = t

  unfoldable pub text_of_items : List Item → String
  text_of_items [] = ""
  text_of_items (i ∷ []) = text_of_item i
  text_of_items (i ∷ j ∷ rest) = append (text_of_item i) (append "," (text_of_items (j ∷ rest)))

  abbrev text_of : Arg → String
  text_of (item i) = text_of_item i
  text_of (values is) = text_of_items is

  unfoldable pub characters : String → List Item
  characters String.[] = []
  characters (String.◌∷◌ c s) = plain (String.◌∷◌ c String.[]) ∷ characters s

  -- What `expected[0]`, `expected[1]`, ... are.
  abbrev elements : Arg → List Item
  elements (item (number n)) = []
  elements (item (plain t)) = characters t
  elements (values is) = is

  -- The comparison of an element that was emitted with the one that is expected, or with `undefined`.
  unfoldable pub item_matches : Item → Option Item → Result Bool
  item_matches (number n) none = err malformed
  item_matches (number n) (some i) = do m ← big_number (item i); ok (eqb_ℤ n m)
  item_matches (plain t) none = ok false
  item_matches (plain t) (some i) = ok (str_eq t (text_of_item i))

  abbrev first : List Item → Option Item
  first [] = none
  first (i ∷ is) = some i

  abbrev others : List Item → List Item
  others [] = []
  others (i ∷ is) = is

  -- As many elements are compared as were emitted.
  unfoldable pub items_match : List Item → List Item → Result Bool
  items_match [] expected = ok true
  items_match (i ∷ is) expected =
      let rest = items_match is (others expected) in
      item_matches i (first expected) >>= λ same. if same then rest else ok false

  unfoldable pub arg_matches : Arg → Arg → Result Bool
  arg_matches (item (number n)) expected = do m ← big_number expected; ok (eqb_ℤ n m)
  arg_matches (item (plain t)) expected = ok (str_eq t (text_of expected))
  arg_matches (values is) expected = items_match is (elements expected)

  -- An empty array is expected as empty bytes.
  unfoldable pub parse_empty : Arg → Arg
  parse_empty (item i) = item i
  parse_empty (values []) = item (plain "0x")
  parse_empty (values (i ∷ is)) = values (i ∷ is)

  -- The arguments are compared up to the first mismatch.
  unfoldable pub args_match : List Arg → List Arg → Result Bool
  args_match emitted [] = ok true
  args_match [] (x ∷ xs) = err undefined_value
  args_match (a ∷ others_emitted) (x ∷ xs) =
      let rest = args_match others_emitted xs in
      arg_matches a (parse_empty x) >>= λ same. if same then rest else ok false

  -- The signature of the event in the interface, and its hash.
  unfoldable pub is_signature_of : String → String → Bool
  is_signature_of name key =
      starts_with key name && str_eq (slice key (len name) (len name + 1)) "("

  unfoldable pub sig_hash : String → List String → Option String
  sig_hash name [] = none
  sig_hash name (key ∷ keys) =
      let rest = sig_hash name keys in
      if is_signature_of name key then some (keccak256 key) else rest

  -- The log is of the event, and of the emitter if one is given.
  unfoldable pub is_candidate : String → Option String → Log → Bool
  is_candidate hash emitter log = has_topic log.topics && is_emitter emitter
    where
      has_topic : List String → Bool
      has_topic [] = false
      has_topic (topic ∷ rest) = str_eq topic hash

      is_emitter : Option String → Bool
      is_emitter none = true
      is_emitter (some address) = str_eq address "" || str_eq log.address address

  -- Whether a candidate is the one that is looked for.
  unfoldable pub is_expected : Interface → String → Option (List Arg) → Log → Result Bool
  is_expected interface name expected log = do
    args ← interface.parse_log log
    elim expected as (λ _. Result Bool) [
      | none ↦ ok true
      | some xs ↦
          if count xs == count args
          then args_match args xs
          else err (
              thrown (
                quoted "Event \"" name
                  "\" emitted with correct signature, but expected args are of invalid length"))
    ]

  -- The loop over the logs; the flag is `invalidParamsButExists`.
  unfoldable pub match_logs :
      Interface
      → String
      → String
      → Option String
      → Option (List Arg)
      → Bool
      → List Log
      → Result (Unit {0})
  match_logs interface hash name emitter expected invalid [] =
      if invalid
      then err (thrown (quoted "Event \"" name "\" found in logs but with unexpected args"))
      else err (
          thrown (
            quoted "Event \"" name (
              quoted "\" not found emitted by \"" (printed emitter) "\" in given transaction log")))
  match_logs interface hash name emitter expected invalid (log ∷ logs) =
      let skipped = match_logs interface hash name emitter expected invalid logs in
      let mismatched = match_logs interface hash name emitter expected true logs in
      if is_candidate hash emitter log
      then (is_expected interface name expected log >>= λ same. if same then ok tt else mismatched)
      else skipped

  unfoldable pub match_event :
      Option (List Log) → String → Interface → Option String → Option (List Arg) → Result (Unit {0})
  match_event none name interface emitter expected = err (thrown "No events were emitted")
  match_event (some logs) name interface emitter expected =
      elim (sig_hash name interface.events) as (λ _. Result (Unit {0})) [
        | none ↦ err (
            thrown (
              quoted "Event \"" name
                "\" not found in provided contract. \nAre you sure you're using the right contract?"))
        | some hash ↦ match_logs interface hash name emitter expected false logs
      ]
