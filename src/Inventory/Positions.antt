-- ===== src/Inventory/Positions.antt =====
-- Where `Romove` leaves the infos of an inventory.
use mitum_data_blocksign.Prelude.{
  Bytes, bytes_eq, bytes_eq_iff, some, List, [], ◌∷◌, ◌++◌, ◌≡◌, refl, ap, ok, arith, All,
  Bool-cases, inl, inr,
}
use mitum_data_blocksign.DocInfo.{DocInfo}
use mitum_data_blocksign.Inventory.{id_text, remove_in, fill_gap, last_of, init_of}
use mitum_data_blocksign.Inventory.Lookup.{Named, find}

-- The infos behind one that goes, and what stands there then: the last one comes first.
pub data Filled : List DocInfo → List DocInfo → Type 0 where
  at_end : Filled [] []
  moved : (mid : List DocInfo) (last : DocInfo) → Filled (mid ++ last ∷ []) (last ∷ mid)

-- The list `rest` is `ds` with the last info in the place of `old`.
pub record Replaced (old : DocInfo) (ds rest : List DocInfo) : Type 0 where
  pub before : List DocInfo
  pub after : List DocInfo
  pub filled : List DocInfo
  pub split : ds ≡ before ++ old ∷ after
  pub joined : rest ≡ before ++ filled
  pub fills : Filled after filled

init_of-last_of : (d : DocInfo) (ds : List DocInfo) → init_of d ds ++ last_of d ds ∷ [] ≡ d ∷ ds
unfolding init_of last_of
init_of-last_of d [] = refl
init_of-last_of d (e ∷ es) = ap (λ xs. d ∷ xs) (init_of-last_of e es)

fill_gap-Filled : (ds : List DocInfo) → Filled ds (fill_gap ds)
unfolding fill_gap
fill_gap-Filled [] = Filled.at_end
fill_gap-Filled (d ∷ ds) = rw (init_of-last_of d ds) at (Filled.moved (init_of d ds) (last_of d ds))

Replaced-cons :
    (d old : DocInfo) (ds rest : List DocInfo)
    → Replaced old ds rest
    → Replaced old (d ∷ ds) (d ∷ rest)
Replaced-cons d old ds rest r = record {
  before = d ∷ r.before;
  after = r.after;
  filled = r.filled;
  split = ap (λ xs. d ∷ xs) r.split;
  joined = ap (λ xs. d ∷ xs) r.joined;
  fills = r.fills;
}

-- The info that the map holds at the id is the one that goes.
pub remove_in-Replaced :
    (id : Bytes) (old : DocInfo) (ds : List DocInfo)
    → All Named ds
    → find id ds ≡ some old
    → (rest : List DocInfo) × (remove_in id ds ≡ ok rest) × Replaced old ds rest
unfolding remove_in find
remove_in-Replaced id old [] n h = cc
remove_in-Replaced id old (d ∷ ds) n h = elim (Bool-cases (bytes_eq id (id_text d))) [
  | inl same ↦
      let e : d ≡ old = ground (arith, bytes_eq_iff id (id_text d), bytes_eq_iff (id_text d) id) in
      (
        fill_gap ds,
        rw (n.0, same) refl,
        record {
          before = [];
          after = ds;
          filled = fill_gap ds;
          split = ap (λ x. x ∷ ds) e;
          joined = refl;
          fills = fill_gap-Filled ds;
        },
      )
  | inr other ↦
      let found : find id ds ≡ some old =
        ground (arith, bytes_eq_iff id (id_text d), bytes_eq_iff (id_text d) id) in
      let (rest, e, r) = remove_in-Replaced id old ds n.1 found in
      (d ∷ rest, rw (n.0, other, e) refl, Replaced-cons d old ds rest r)
]
