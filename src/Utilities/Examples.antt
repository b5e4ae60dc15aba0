-- ===== src/Utilities/Examples.antt =====
-- helpers/utilities/utils.ts at concrete lists of symbols.
use rasa_lending_platform_sm.Prelude.{true, String, ◌≡◌, refl, List, [], ◌∷◌, All, arith}
use rasa_lending_platform_sm.Utilities.{slice, starts_chunk, reduce_chunks, chunk}
use rasa_lending_platform_sm.Utilities.Checks.{contains_same_members, sorted, inserted, join}
use rasa_lending_platform_sm.Utilities.Chunks.{concat, IsChunk, concat-chunk}

abbrev symbols : List String
symbols = "DAI" ∷ "WETH" ∷ "USDC" ∷ "WBTC" ∷ []

-- Reserves are initialised three at a time; the last batch is short.
three_symbols : chunk symbols 3 ≡ (("DAI" ∷ "WETH" ∷ "USDC" ∷ []) ∷ ("WBTC" ∷ []) ∷ [])
unfolding slice starts_chunk reduce_chunks chunk
three_symbols = refl

concat-chunk_example : (concat (chunk symbols 3) ≡ symbols) × All (IsChunk 3) (chunk symbols 3)
concat-chunk_example = concat-chunk symbols 3 (omega arith)

-- The order of the symbols does not matter, and both arrays come back sorted.
same_symbols :
    contains_same_members ("DAI" ∷ "WETH" ∷ "USDC" ∷ []) ("USDC" ∷ "DAI" ∷ "WETH" ∷ [])
    ≡ (true, "DAI" ∷ "USDC" ∷ "WETH" ∷ [], "DAI" ∷ "USDC" ∷ "WETH" ∷ [])
unfolding contains_same_members sorted inserted join
same_symbols = refl

-- One member that holds a comma is taken for two.
comma_in_member :
    contains_same_members ("DAI,WETH" ∷ []) ("DAI" ∷ "WETH" ∷ [])
    ≡ (true, "DAI,WETH" ∷ [], "DAI" ∷ "WETH" ∷ [])
unfolding contains_same_members sorted inserted join
comma_in_member = refl
