-- ===== src/Utilities/Chunks.antt =====
-- The chunks of helpers/utilities/utils.ts are the array, cut.
use native.Mathlib.Nat.{zero-mod, suc-mod, mod-eq_of_lt, mod_self, mod-lt}
use rasa_lending_platform_sm.Prelude.{
  ℕ, zero, suc, ◌+◌, ◌-◌, ◌%◌, ◌≤◌, ◌<◌, ◌≡◌, refl, sym, ap, ◌∙◌, subst, true, false, List, [], ◌∷◌,
  ◌++◌, take, drop, length, All, ◌==◌, if◌then◌else◌, inl, inr, Bool-cases, arith,
}
use rasa_lending_platform_sm.Utilities.{slice, starts_chunk, reduce_chunks, chunk}

-- How many elements from `index` on belong to a chunk that has begun.
abbrev begun : ℕ → ℕ → ℕ
begun index size = if index % size == 0 then 0 else size - index % size

begun-zero : (size : ℕ) → begun 0 size ≡ 0
begun-zero size = rw (zero-mod size) refl

next_remainder :
    (index size : ℕ)
    → 0 < size
    → suc index % size ≡ (if suc (index % size) == size then 0 else suc (index % size))
next_remainder index size p = elim (Bool-cases (suc (index % size) == size)) [
  | inl e ↦
      let full : suc (index % size) ≡ size = ground arith in
      suc-mod index size ∙ ap (λ (n : ℕ). n % size) full ∙ mod_self size ∙ rw e refl
  | inr e ↦ suc-mod index size ∙ mod-eq_of_lt (ground (arith, mod-lt index p)) ∙ rw e refl
]

begun-start :
    (index size : ℕ) → 0 < size → (index % size == 0) ≡ true → suc (begun (suc index) size) ≡ size
begun-start index size p e = rw (next_remainder index size p) (ground arith)

begun-within :
    (index size : ℕ)
    → 0 < size
    → (index % size == 0) ≡ false
    → size - index % size ≡ suc (begun (suc index) size)
begun-within index size p e = rw (next_remainder index size p) (ground (arith, mod-lt index p))

module _ {ℓ} {A : Type ℓ} where
  abbrev pub concat : List (List A) → List A
  concat [] = []
  concat (c ∷ cs) = c ++ concat cs

  append-nil : (xs : List A) → xs ++ [] ≡ xs
  append-nil [] = refl
  append-nil (x ∷ xs) = ap (λ (ys : List A). x ∷ ys) (append-nil xs)

  append_assoc : (xs ys zs : List A) → (xs ++ ys) ++ zs ≡ xs ++ (ys ++ zs)
  append_assoc [] ys zs = refl
  append_assoc (x ∷ xs) ys zs = ap (λ (us : List A). x ∷ us) (append_assoc xs ys zs)

  concat-snoc : (cs : List (List A)) (c : List A) → concat (cs ++ (c ∷ [])) ≡ concat cs ++ c
  concat-snoc [] c = append-nil c
  concat-snoc (d ∷ cs) c =
      ap (λ (us : List A). d ++ us) (concat-snoc cs c) ∙ sym (append_assoc d (concat cs) c)

  take-drop : (n : ℕ) (xs : List A) → take n xs ++ drop n xs ≡ xs
  take-drop zero xs = refl
  take-drop (suc n) [] = refl
  take-drop (suc n) (x ∷ xs) = ap (λ (us : List A). x ∷ us) (take-drop n xs)

  drop-next :
      (n : ℕ) (arr : List A) {x : A} {xs : List A} → drop n arr ≡ x ∷ xs → drop (suc n) arr ≡ xs
  drop-next zero [] e = cc
  drop-next zero (y ∷ ys) e = cc
  drop-next (suc n) [] e = cc
  drop-next (suc n) (y ∷ ys) e = drop-next n ys e

  length-take-le : (n : ℕ) (xs : List A) → length (take n xs) ≤ n
  length-take-le zero xs = omega arith
  length-take-le (suc n) [] = omega arith
  length-take-le (suc n) (x ∷ xs) = omega (arith, length-take-le n xs)

  append_drop_nil : (n : ℕ) (xs : List A) → xs ++ drop n [] ≡ xs
  append_drop_nil zero xs = append-nil xs
  append_drop_nil (suc n) xs = append-nil xs

  slice-start :
      (arr : List A) (index size b : ℕ) (x : A) (rest : List A)
      → drop index arr ≡ x ∷ rest
      → suc b ≡ size
      → slice arr index (index + size) ≡ x ∷ take b rest
  unfolding slice
  slice-start arr index size b x rest e h =
      let width : index + size - index ≡ suc b = omega arith in rw (width, e) refl

  -- From `index` on, what the chunks hold is what they held and what has not been put in them yet.
  cut :
      (arr : List A) (size : ℕ)
      → 0 < size
      → (rest : List A) (index : ℕ) (chunks : List (List A)) → drop index arr ≡ rest
      → concat (reduce_chunks arr size index rest chunks)
        ≡ concat chunks ++ drop (begun index size) rest
  unfolding reduce_chunks starts_chunk
  cut arr size p [] index chunks e = sym (append_drop_nil (begun index size) (concat chunks))
  cut arr size p (x ∷ rest) index chunks e =
      let sized : (size == 0) ≡ false = ground arith in
      let next = drop-next index arr e in
      elim (Bool-cases (index % size == 0)) [
        | inl start ↦
            let b : ℕ = begun (suc index) size in
            rw
              (sized, start, slice-start arr index size b x rest e (begun-start index size p start))
              (cut arr size p rest (suc index) _ next
                ∙ ap (λ (us : List A). us ++ drop b rest) (concat-snoc chunks (x ∷ take b rest))
                ∙ append_assoc (concat chunks) (x ∷ take b rest) (drop b rest)
                ∙ ap (λ (us : List A). concat chunks ++ (x ∷ us)) (take-drop b rest))
        | inr within ↦
            rw (sized, within, begun-within index size p within)
              (cut arr size p rest (suc index) chunks next)
      ]

  -- A chunk has an element, and at most `size` of them.
  abbrev pub IsChunk : ℕ → List A → Type 0
  IsChunk size c = (0 < length c) × (length c ≤ size)

  take-IsChunk : (b : ℕ) (x : A) (rest : List A) → IsChunk (suc b) (x ∷ take b rest)
  take-IsChunk b x rest = (omega arith, omega (arith, length-take-le b rest))

  All-snoc :
      (size : ℕ) (cs : List (List A)) (c : List A)
      → All (IsChunk size) cs
      → IsChunk size c
      → All (IsChunk size) (cs ++ (c ∷ []))
  All-snoc size [] c cs_chunks c_chunk = (c_chunk, tt)
  All-snoc size (d ∷ cs) c (d_chunk, cs_chunks) c_chunk =
      (d_chunk, All-snoc size cs c cs_chunks c_chunk)

  reduce_chunks-IsChunk :
      (arr : List A) (size : ℕ)
      → 0 < size
      → (rest : List A) (index : ℕ) (chunks : List (List A)) → drop index arr ≡ rest
      → All (IsChunk size) chunks
      → All (IsChunk size) (reduce_chunks arr size index rest chunks)
  unfolding reduce_chunks starts_chunk
  reduce_chunks-IsChunk arr size p [] index chunks e all = all
  reduce_chunks-IsChunk arr size p (x ∷ rest) index chunks e all =
      let sized : (size == 0) ≡ false = ground arith in
      let next = drop-next index arr e in
      elim (Bool-cases (index % size == 0)) [
        | inl start ↦
            let b : ℕ = begun (suc index) size in
            let full = begun-start index size p start in
            rw (sized, start, slice-start arr index size b x rest e full)
              (reduce_chunks-IsChunk arr size p rest (suc index) _ next (
                All-snoc size chunks (x ∷ take b rest) all
                  (subst (λ (n : ℕ). IsChunk n (x ∷ take b rest)) full (take-IsChunk b x rest))))
        | inr within ↦
            rw (sized, within) (reduce_chunks-IsChunk arr size p rest (suc index) chunks next all)
      ]

  -- With a chunk size above zero, the chunks of an array put together are the array, and each has at
  -- least one and at most as many elements as the chunk size.
  pub concat-chunk :
      (arr : List A) (size : ℕ)
      → 0 < size
      → (concat (chunk arr size) ≡ arr) × All (IsChunk size) (chunk arr size)
  unfolding chunk
  concat-chunk arr size p = (
    cut arr size p arr 0 [] refl ∙ ap (λ (n : ℕ). drop n arr) (begun-zero size),
    reduce_chunks-IsChunk arr size p arr 0 [] refl tt,
  )
