-- ===== src/Digest/Chunks.antt =====
-- What the loops over pieces of a slice write and visit.
use mitum_data_blocksign.Prelude.{
  ℕ, Bool-cases, err, inl, inr, zero, suc, ◌+◌, ◌-◌, ◌*◌, ◌≤◌, ◌<◌, ltb, leb, length, take, drop,
  length-drop, take-append-drop, true, ◌&&◌, List, [], ◌∷◌, ◌++◌, ok, panic, ◌>>=◌, ◌≡◌, refl, sym,
  ap, ◌∙◌, All, arith,
}
use mitum_data_blocksign.Mitum.{Outcome}
use mitum_data_blocksign.Digest.Slices.{slice, cap_at, write_chunks, write_models, chunk_count}

module _ {X : Type 0} where
  abbrev pub concat : List (List X) → List X
  concat [] = []
  concat (c ∷ cs) = c ++ concat cs

module _ {X D : Type 0} where
  -- One write after another, to the first error.
  abbrev pub write_each : (List X → D → Outcome D) → List (List X) → D → Outcome D
  write_each write [] d = ok d
  write_each write (c ∷ cs) d = write c d >>= write_each write cs

module _ {X : Type 0} where
  -- A chunk of a bulk write: not empty, and at most 500 models.
  abbrev pub Chunk : List X → Type 0
  Chunk c = (1 ≤ length c) × (length c ≤ 500)

  append_empty : (xs : List X) → xs ++ [] ≡ xs
  append_empty [] = refl
  append_empty (x ∷ xs) = ap (λ ys. x ∷ ys) (append_empty xs)

  drop_empty : (n : ℕ) → drop {A = X} n [] ≡ []
  drop_empty zero = refl
  drop_empty (suc n) = refl

  drop-drop : (m n : ℕ) (xs : List X) → drop n (drop m xs) ≡ drop (m + n) xs
  drop-drop zero n xs = ap (λ k. drop k xs) (omega arith)
  drop-drop (suc m) n [] = drop_empty n ∙ sym (drop_empty (suc m + n))
  drop-drop (suc m) n (x ∷ xs) =
      let e : suc (m + n) ≡ suc m + n = omega arith in
      drop-drop m n xs ∙ ap (λ k. drop k (x ∷ xs)) e

  take_all : (n : ℕ) (xs : List X) → length xs ≤ n → take n xs ≡ xs
  take_all zero [] h = refl
  take_all (suc n) [] h = refl
  take_all zero (x ∷ xs) h = absurd (omega arith)
  take_all (suc n) (x ∷ xs) h = ap (λ ys. x ∷ ys) (take_all n xs (omega arith))

  take_capped : (n : ℕ) (xs : List X) → take (cap_at (length xs) n) xs ≡ take n xs
  take_capped n xs = grind (arith, take_all n xs, take_all (length xs) xs)

  length-take_capped : (n : ℕ) (xs : List X) → length (take n xs) ≡ cap_at (length xs) n
  length-take_capped zero xs = grind arith
  length-take_capped (suc n) [] = grind arith
  length-take_capped (suc n) (x ∷ xs) = grind (arith, length-take_capped n xs)

  drop_past : (n : ℕ) (xs : List X) → length xs ≤ n → drop n xs ≡ []
  drop_past zero [] h = refl
  drop_past (suc n) [] h = refl
  drop_past zero (x ∷ xs) h = absurd (omega arith)
  drop_past (suc n) (x ∷ xs) h = drop_past n xs (omega arith)

  -- A piece that starts in the slice and is cut at its end
  slice_piece :
      (s m : ℕ) (xs : List X)
      → s ≤ length xs
      → slice s (cap_at (length xs) (s + m)) xs ≡ ok (take m (drop s xs))
  unfolding slice
  slice_piece s m xs h =
      let inside : (leb s (cap_at (length xs) (s + m))
            && leb (cap_at (length xs) (s + m)) (length xs))
          ≡ true =
        grind arith in
      let size : cap_at (length xs) (s + m) - s ≡ cap_at (length (drop s xs)) m =
        grind (arith, length-drop s xs) in
      rw (inside, size, take_capped m (drop s xs)) refl

  piece_sized : (xs : List X) → 1 ≤ length xs → Chunk (take 500 xs)
  piece_sized xs h = rw (length-take_capped 500 xs) (grind arith, grind arith)

count_covers : (n : ℕ) → n ≤ (0 + chunk_count n) * 500
count_covers n = ground arith

count_filled : (n : ℕ) → 1 ≤ chunk_count n → (0 + chunk_count n - 1) * 500 < n
count_filled n h = ground arith

>>=-ok_id : {X : Type 0} (m : Outcome X) → (m >>= λ x. ok x) ≡ m
>>=-ok_id (ok x) = refl
>>=-ok_id (err e) = refl
>>=-ok_id panic = refl

module _ {X D : Type 0} where
  chunks_from :
      (k i : ℕ) (models : List X)
      → length models ≤ (i + k) * 500
      → (1 ≤ k → (i + k - 1) * 500 < length models)
      → (cs : List (List X)) × (concat cs ≡ drop (i * 500) models)
        × All Chunk cs
        × ((write : List X → D → Outcome D) (d : D)
            → write_chunks write k i models d ≡ write_each write cs d)
  unfolding write_chunks
  chunks_from zero i models h l =
      ([], sym (drop_past (i * 500) models (omega arith)), tt, λ write d. refl)
  chunks_from (suc k) i models h l =
      let low : (i + suc k - 1) * 500 < length models = l (omega arith) in
      let (cs, joined, sized, same) =
        chunks_from k (suc i) models (omega arith) (λ p. omega arith) in
      let c = take 500 (drop (i * 500) models) in
      let rest : drop 500 (drop (i * 500) models) ≡ drop (suc i * 500) models =
        drop-drop (i * 500) 500 models ∙ ap (λ n. drop n models) (omega arith) in
      let size : Chunk c =
        piece_sized (drop (i * 500) models) (omega (arith, length-drop (i * 500) models)) in
      (
        c ∷ cs,
        rw (joined, sym rest) (take-append-drop 500 (drop (i * 500) models)),
        (size, sized),
        λ write d.
            rw (slice_piece (i * 500) 500 models (omega arith))
              (λ t. write c d >>= λ d'. same write d' t),
      )

  -- A bulk write is split into chunks of at most 500 models, none of them empty, that make up the
  -- models in their order, whatever is written; it writes one after another, to the first error.
  pub write_models-chunks :
      (models : List X)
      → (cs : List (List X)) × (concat cs ≡ models)
        × All Chunk cs
        × ((write : List X → D → Outcome D) (d : D)
            → write_models write models d ≡ write_each write cs d)
  unfolding write_models
  write_models-chunks models = elim (Bool-cases (ltb (length models) 1)) [
    | inl zero_models ↦
        ([], sym (drop_past 0 models (grind arith)), tt, λ write d. rw zero_models refl)
    | inr some_models ↦ elim (Bool-cases (leb (length models) 500)) [
      | inl one ↦ (
        models ∷ [],
        append_empty models,
        ((grind arith, grind arith), tt),
        λ write d. rw (some_models, one) (sym (>>=-ok_id (write models d))),
      )
      | inr many ↦
          let (cs, joined, sized, same) =
            chunks_from (chunk_count (length models)) 0 models (count_covers _) (count_filled _) in
          (cs, joined, sized, λ write d. rw (some_models, many) (same write d))
    ]
  ]
