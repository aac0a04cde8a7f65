-- ===== src/Digest/Slices.antt =====
-- Slice expressions, and the loops of digest/block_session.go and digest/database.go that cut slices
-- into pieces.
use Prim.Native.Nat.{◌/◌}
use mitum_data_blocksign.Prelude.{
  ℕ, zero, suc, ◌+◌, ◌-◌, ◌*◌, ◌%◌, ltb, leb, length, take, drop, Bool, true, false, ◌&&◌, List,
  if◌then◌else◌, ok, panic, ◌>>=◌,
}
use mitum_data_blocksign.Mitum.{Outcome}

-- `xs[s:e]`
unfoldable pub slice : {X : Type 0} → ℕ → ℕ → List X → Outcome (List X)
slice s e xs = if leb s e && leb e (length xs) then ok (take (e - s) (drop s xs)) else panic

abbrev pub cap_at : ℕ → ℕ → ℕ
cap_at n e = if ltb n e then n else e

-- The number of chunks: one more where the last is not full
abbrev pub chunk_count : ℕ → ℕ
chunk_count n = if ltb 0 (n % 500) then n / 500 + 1 else n / 500

module _ {X D : Type 0} where
  -- The loop of `writeModels`, over the writer of a chunk: `k` chunks from the `i`-th
  unfoldable pub write_chunks : (List X → D → Outcome D) → ℕ → ℕ → List X → D → Outcome D
  write_chunks write zero i models d = ok d
  write_chunks write (suc k) i models d = do
    ms ← slice (i * 500) (cap_at (length models) (i * 500 + 500)) models
    d' ← write ms d
    write_chunks write k (suc i) models d'

  -- `writeModels`, with `bulkWriteLimit` 500
  unfoldable pub write_models : (List X → D → Outcome D) → List X → D → Outcome D
  write_models write models d =
      if ltb (length models) 1
      then ok d
      else (if leb (length models) 500
          then write models d
          else write_chunks write (chunk_count (length models)) 0 models d)

  -- The loop of `AccountsByPublickey`, over the visit of a page, which says whether to end: `k` pages
  -- from the `i`-th. The end of a page is `(i + 1) + 50`.
  unfoldable pub visit_pages : (List X → D → Outcome (Bool × D)) → ℕ → ℕ → List X → D → Outcome D
  visit_pages visit zero i xs d = ok d
  visit_pages visit (suc k) i xs d = do
    limited ← slice (i * 50) (cap_at (length xs) (i + 1 + 50)) xs
    (done, d') ← visit limited d
    elim done [ true ↦ ok d' | false ↦ visit_pages visit k (suc i) xs d' ]

  -- `math.Ceil(float64(n)/50.0)` is exact for the lengths of slices.
  unfoldable pub visit_all : (List X → D → Outcome (Bool × D)) → List X → D → Outcome D
  visit_all visit xs d = visit_pages visit ((length xs + 49) / 50) 0 xs d
