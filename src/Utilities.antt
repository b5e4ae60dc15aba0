-- ===== src/Utilities.antt =====
-- helpers/utilities/utils.ts: the splitting of an array into chunks, by which reserves are initialised
-- and configured in batches.
pub mod Chunks
pub mod Checks
pub mod Examples
use rasa_lending_platform_sm.Prelude.{
  ℕ, suc, ◌+◌, ◌-◌, ◌%◌, Bool, true, List, [], ◌∷◌, ◌++◌, take, drop, ◌==◌, if◌then◌else◌,
}

-- `!(index % size)`: in JavaScript a remainder by zero is not a number, which counts as false.
unfoldable pub starts_chunk : ℕ → ℕ → Bool
starts_chunk index size = if size == 0 then true else index % size == 0

module _ {ℓ} {A : Type ℓ} where
  -- `arr.slice(start, end)`, for `start` up to `end`.
  unfoldable pub slice : List A → ℕ → ℕ → List A
  slice arr start end = take (end - start) (drop start arr)

  -- The callback of `reduce`, over the elements from `index` on.
  unfoldable pub reduce_chunks : List A → ℕ → ℕ → List A → List (List A) → List (List A)
  reduce_chunks arr size index [] chunks = chunks
  reduce_chunks arr size index (x ∷ rest) chunks =
      reduce_chunks arr size (suc index) rest (
        if starts_chunk index size then chunks ++ (slice arr index (index + size) ∷ []) else chunks)

  unfoldable pub chunk : List A → ℕ → List (List A)
  chunk arr size = reduce_chunks arr size 0 arr []
