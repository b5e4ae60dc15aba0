-- ===== src/Setup/Lookups/Deployed/Names.antt =====
-- The names of deployments in helpers/deploy-ids.ts: a symbol and what is joined to it.
use Prim.Native.Nat.{compare, Ordering}
use Prim.Native.Char.{Char, code, len_utf8}
use Prim.Native.String.{◌++◌ as joined, len, begins, find, slice, same}
use Prim.Native.String
use text.Mathlib.Text.{find?}
use text.Mathlib.TextPositions.{compare_self, len-append, slice-append_left, slice-append_right}
use text.Mathlib.TextLemmas.{append-nil}
use rasa_lending_platform_sm.Prelude.{
  ℕ, ◌+◌, ◌≡◌, refl, sym, ap, ◌∙◌, arith, Bool, true, false, ◌&&◌, not, String, some, List, [], ◌∷◌,
  subst, ap₂, ◌==◌,
}
use rasa_lending_platform_sm.Setup.Lookups.Deployed.{
  includes, without, Deployments, AssetType, rs_token, variable_debt_token, stable_debt_token,
  get_prefix_by_asset_type, symbols_that, get_sub_tokens_by_prefix,
}

-- Whether a text has no hyphen, with which every prefix begins.
unfoldable pub no_hyphen : String → Bool
no_hyphen String.[] = true
no_hyphen (String.◌∷◌ c s) = not (code c == 45) && no_hyphen s

find_here : (s : String) (n : ℕ) → begins s s 0 n ≡ 0
find_here String.[] n = refl
find_here (String.◌∷◌ c s) n =
    ap (λ o. same o (begins s s 0 n) n) (compare_self (code c)) ∙ find_here s n

find_after :
    (c : Char) (s t : String)
    → (code c == 45) ≡ false
    → find (String.◌∷◌ c s) (String.◌∷◌ "-" t) ≡ len_utf8 c + find s (String.◌∷◌ "-" t)
find_after c s t e = String.find.cons c s (String.◌∷◌ "-" t) ∙ by_order (compare (code c) 45) refl
  where
    target : ℕ
    target = len_utf8 c + find s (String.◌∷◌ "-" t)

    by_order :
        (o : Ordering) → compare (code c) 45 ≡ o → same o (begins s t 0 target) target ≡ target
    by_order Ordering.lt h = refl
    by_order Ordering.eq h = ground (arith, h)
    by_order Ordering.gt h = refl

-- A prefix stands first after a symbol without a hyphen.
find-joined :
    (symbol rest : String)
    → no_hyphen symbol ≡ true
    → find (joined symbol (String.◌∷◌ "-" rest)) (String.◌∷◌ "-" rest) ≡ len symbol
unfolding no_hyphen
find-joined String.[] rest e =
    ap (λ u. find u (String.◌∷◌ "-" rest)) (String.append.nil (String.◌∷◌ "-" rest))
    ∙ String.find.cons "-" rest (String.◌∷◌ "-" rest)
    ∙ find_here (String.◌∷◌ "-" rest) _
    ∙ sym String.len.nil
find-joined (String.◌∷◌ c s) rest e =
    ap (λ u. find u (String.◌∷◌ "-" rest)) (String.append.cons c s (String.◌∷◌ "-" rest))
    ∙ find_after c (joined s (String.◌∷◌ "-" rest)) rest (ground (arith, e))
    ∙ ap (λ n. len_utf8 c + n) (find-joined s rest (ground (arith, e)))
    ∙ sym (String.len.cons c s)

find?-joined :
    (symbol prefix : String)
    → find (joined symbol prefix) prefix ≡ len symbol
    → find? (joined symbol prefix) prefix ≡ some (len symbol)
find?-joined symbol prefix e = ground (arith, e, len-append symbol prefix)

-- Behind the prefix nothing is left.
slice_end : (text : String) → slice text (len text) (len text) ≡ String.[]
slice_end text =
    ap (λ u. slice u (len text) (len text)) (sym (append-nil text))
    ∙ ap (λ n. slice (joined text String.[]) (len text) n) (omega (arith, String.len.nil))
    ∙ slice-append_right text String.[]

cut_out :
    (symbol prefix : String)
    → joined
        (slice (joined symbol prefix) 0 (len symbol))
        (slice (joined symbol prefix) (len symbol + len prefix) (len (joined symbol prefix)))
      ≡ symbol
cut_out symbol prefix =
    ap₂ joined (slice-append_left symbol prefix) (
      ap (λ n. slice (joined symbol prefix) n (len (joined symbol prefix)))
        (sym (len-append symbol prefix))
      ∙ slice_end (joined symbol prefix))
    ∙ append-nil symbol

-- A name that a symbol and a prefix make up holds the prefix, and is the symbol without it.
pub without-joined :
    (symbol prefix : String)
    → find (joined symbol prefix) prefix ≡ len symbol
    → (includes (joined symbol prefix) prefix ≡ true)
      × (without (joined symbol prefix) prefix ≡ symbol)
unfolding includes without
without-joined symbol prefix e =
    let found = find?-joined symbol prefix e in (cc found, cc (found, cut_out symbol prefix))

-- What is deployed: a token, that is stored under its symbol and the prefix of its asset type, or
-- something else under a name of its own.
pub data Stored (Artifact : Type 0) : Type 0 where
  token : String → String × Artifact → Stored Artifact
  other : String → String × Artifact → Stored Artifact

-- The deployments under their names.
unfoldable pub named : {Artifact : Type 0} → String → List (Stored Artifact) → Deployments Artifact
named prefix [] = []
named prefix (token symbol deployment ∷ rest) =
    (joined symbol prefix, deployment) ∷ named prefix rest
named prefix (other name deployment ∷ rest) = (name, deployment) ∷ named prefix rest

-- The tokens under their symbols.
unfoldable pub tokens_of : {Artifact : Type 0} → List (Stored Artifact) → Deployments Artifact
tokens_of [] = []
tokens_of (token symbol deployment ∷ rest) = (symbol, deployment) ∷ tokens_of rest
tokens_of (other name deployment ∷ rest) = tokens_of rest

-- The symbols have no hyphen, and the other names do not hold the prefix.
unfoldable pub told_apart : {Artifact : Type 0} → String → List (Stored Artifact) → Bool
told_apart prefix [] = true
told_apart prefix (token symbol deployment ∷ rest) = no_hyphen symbol && told_apart prefix rest
told_apart prefix (other name deployment ∷ rest) =
    not (includes name prefix) && told_apart prefix rest

get_prefix_by_asset_type-hyphen :
    (market : String) (type : AssetType)
    → (rest : String) × (get_prefix_by_asset_type market type ≡ String.◌∷◌ "-" rest)
unfolding get_prefix_by_asset_type
get_prefix_by_asset_type-hyphen market rs_token =
    (joined "RSToken-" market, String.append.cons _ _ _)
get_prefix_by_asset_type-hyphen market variable_debt_token =
    (joined "VariableDebtToken-" market, String.append.cons _ _ _)
get_prefix_by_asset_type-hyphen market stable_debt_token =
    (joined "StableDebtToken-" market, String.append.cons _ _ _)

module _ {Artifact : Type 0} where
  symbols_that-named :
      (prefix rest : String) (deployed : List (Stored Artifact))
      → prefix ≡ String.◌∷◌ "-" rest
      → told_apart prefix deployed ≡ true
      → symbols_that prefix (λ symbol. true) (named prefix deployed) ≡ tokens_of deployed
  unfolding symbols_that named tokens_of told_apart
  symbols_that-named prefix rest [] h e = refl
  symbols_that-named prefix rest (token symbol deployment ∷ others) h e =
      let cut = without-joined symbol prefix first in
      let below = symbols_that-named prefix rest others h (ground (arith, e)) in
      cc (cut.0, cut.1, below)
    where
      first : find (joined symbol prefix) prefix ≡ len symbol
      first =
          subst (λ p. find (joined symbol p) p ≡ len symbol) (sym h)
            (find-joined symbol rest (ground (arith, e)))
  symbols_that-named prefix rest (other name deployment ∷ others) h e =
      let below = symbols_that-named prefix rest others h (ground (arith, e)) in
      let skipped : includes name prefix ≡ false = ground (arith, e) in rw (skipped) below

  -- Among deployments of which the tokens are stored under a symbol without a hyphen and the prefix of an
  -- asset type, and the others under names that do not hold the prefix, the prefix finds the tokens, all of
  -- them and nothing else, with their symbols and in their order.
  pub get_sub_tokens_by_prefix-named :
      (market : String) (type : AssetType) (deployed : List (Stored Artifact))
      → told_apart (get_prefix_by_asset_type market type) deployed ≡ true
      → get_sub_tokens_by_prefix
          (named (get_prefix_by_asset_type market type) deployed)
          (get_prefix_by_asset_type market type)
        ≡ tokens_of deployed
  unfolding get_sub_tokens_by_prefix
  get_sub_tokens_by_prefix-named market type deployed e =
      let hyphen = get_prefix_by_asset_type-hyphen market type in
      symbols_that-named (get_prefix_by_asset_type market type) (hyphen.0) deployed (hyphen.1) e
