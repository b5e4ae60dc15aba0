-- ===== src/Utilities/Checks.antt =====
-- helpers/utilities/utils.ts: the checks of addresses and of the members of arrays. `isAddress` and
-- `getAddress` of ethers are arguments; the second throws on a text that is no address.
use Prim.Native.String.{◌++◌ as joined, compare}
use text.Mathlib.Text.{◌==◌ as str_eq, is_le}
use rasa_lending_platform_sm.Prelude.{Bool, false, not, String, List, [], ◌∷◌, if◌then◌else◌}
use rasa_lending_platform_sm.Prelude.Result.{Result, ok, ◌>>=◌}
use rasa_lending_platform_sm.Types.{SymbolMap}
use rasa_lending_platform_sm.Setup.{zero_address}

-- What is before a false test is not evaluated: an empty text or one that is no address is not valid.
unfoldable pub is_valid_address : (String → Bool) → (String → Result String) → String → Result Bool
is_valid_address is_address get_address value =
    if str_eq value ""
    then ok false
    else if is_address value
    then (do
      address ← get_address value
      zero ← get_address zero_address
      ok (not (str_eq address zero)))
    else ok false

unfoldable pub is_equal_address : (String → Result String) → String → String → Result Bool
is_equal_address get_address a b = do
  first ← get_address a
  second ← get_address b
  ok (str_eq first second)

-- The entries of an object whose keys pass a test.
unfoldable pub filter_map_by {ℓ} : {T : Type ℓ} → SymbolMap T → (String → Bool) → SymbolMap T
filter_map_by [] fn = []
filter_map_by ((key, value) ∷ raw) fn =
    let others = filter_map_by raw fn in if fn key then (key, value) ∷ others else others

-- `sort` of texts, by the numbers of their characters: those of UTF-16 in JavaScript, which order
-- texts of the basic plane in the same way.
unfoldable pub inserted : String → List String → List String
inserted x [] = x ∷ []
inserted x (y ∷ ys) =
    let rest = inserted x ys in if is_le (compare x y) then x ∷ y ∷ ys else y ∷ rest

unfoldable pub sorted : List String → List String
sorted [] = []
sorted (x ∷ xs) = inserted x (sorted xs)

-- `join(',')`.
unfoldable pub join : List String → String
join [] = ""
join (x ∷ []) = x
join (x ∷ y ∷ ys) = joined x (joined "," (join (y ∷ ys)))

-- The answer, and the two arrays, which are sorted in place.
unfoldable pub contains_same_members : List String → List String → Bool × List String × List String
contains_same_members arr1 arr2 =
    (str_eq (join (sorted arr1)) (join (sorted arr2)), sorted arr1, sorted arr2)
