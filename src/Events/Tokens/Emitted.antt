-- ===== src/Events/Tokens/Emitted.antt =====
-- test-suites/helpers/utils/tokenization-events.ts: `getRSTokenEvent`, `getVariableDebtTokenEvent` and
-- `getStableDebtTokenEvent`, the events of a name that a token emitted in a transaction.
use Prim.Native.String as Text
use text.Mathlib.Text.{◌==◌ as str_eq}
use rasa_lending_platform_sm.Prelude.{
  Bool, false, ◌&&◌, String, Option, none, some, List, [], ◌∷◌, if◌then◌else◌,
}
use rasa_lending_platform_sm.Prelude.Result.{Result, ok, ◌>>=◌}
use rasa_lending_platform_sm.Events.{Arg, Log, Ethers}

-- `RSTOKEN_EVENTS` and the others, by their signatures; the names of the arguments serve the printing.
abbrev pub rs_token_events : List String
rs_token_events =
    "Transfer(address,address,uint256)" ∷ "Mint(address,address,uint256,uint256,uint256)"
    ∷ "Burn(address,address,uint256,uint256,uint256)"
    ∷ "BalanceTransfer(address,address,uint256,uint256)" ∷ []

abbrev pub variable_debt_token_events : List String
variable_debt_token_events =
    "Transfer(address,address,uint256)" ∷ "Mint(address,address,uint256,uint256,uint256)"
    ∷ "Burn(address,address,uint256,uint256,uint256)" ∷ []

abbrev pub stable_debt_token_events : List String
stable_debt_token_events =
    "Transfer(address,address,uint256)"
    ∷ "Mint(address,address,uint256,uint256,uint256,uint256,uint256,uint256)"
    ∷ "Burn(address,uint256,uint256,uint256,uint256,uint256)" ∷ []

-- `sig.split('(')[0]`.
unfoldable pub before_parenthesis : String → String
before_parenthesis Text.[] = ""
before_parenthesis (Text.◌∷◌ c s) =
    let rest = before_parenthesis s in if str_eq (Text.◌∷◌ c "") "(" then "" else Text.◌∷◌ c rest

-- `find` of a signature by the name of its event.
unfoldable pub find_signature : String → List String → Option String
find_signature name [] = none
find_signature name (sig ∷ sigs) =
    let rest = find_signature name sigs in
    if str_eq (before_parenthesis sig) name then some sig else rest

unfoldable pub first_is : String → List String → Bool
first_is hash [] = false
first_is hash (topic ∷ topics) = str_eq topic hash

-- The logs of an event of a token, decoded by its interface, which may throw.
unfoldable pub decode_all :
    (Log → Result (List Arg)) → String → String → List Log → Result (List (List Arg))
decode_all decode hash address [] = ok []
decode_all decode hash address (log ∷ logs) =
    let rest = decode_all decode hash address logs in
    if first_is hash log.topics && str_eq log.address address
    then (decode log >>= λ args. rest >>= λ results. ok (args ∷ results))
    else rest

unfoldable pub get_token_event :
    Ethers
    → (String → Log → Result (List Arg))
    → List String
    → String
    → List Log
    → String
    → Result (List (List Arg))
get_token_event e decode_event_log sigs address logs name = elim (find_signature name sigs) [
  | none ↦ ok []
  | some sig ↦ decode_all (decode_event_log name) (e.keccak256 sig) address logs
]
