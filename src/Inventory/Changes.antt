-- ===== src/Inventory/Changes.antt =====
-- What `Append`, `Romove` and `Sort` do to the map that an inventory stands for.
use mathlib.Core.List.Permᴰ
use mitum_data_blocksign.Prelude.{
  Bytes, bytes_eq, bytes_eq_iff, true, none, some, List, [], ◌∷◌, ◌++◌, ◌≡◌, ◌≢◌, refl, sym, subst,
  ◌∙◌, ◌⊎◌, inl, inr, ok, err, arith, All, Distinct, Option-cases, if◌then◌else◌, sort_slice,
  sort_slice-perm, by_key, sort_slice-IsSorted, IsSorted,
}
use mitum_data_blocksign.Error.{document_not_in_inventory, document_already_in_inventory}
use mitum_data_blocksign.Mitum.{Util}
use mitum_data_blocksign.DocInfo.{DocInfo, id_string}
use mitum_data_blocksign.DocInfo
use mitum_data_blocksign.Inventory.{
  DocumentInventory, id_text, has_id, all_have_ids, append, romove, remove_in, sort, info_less,
}
use mitum_data_blocksign.Inventory.Erasure.{
  erase_id, remove_in-perm, find-erase_id, All-erase_id, Distinct-erase_id,
}
use mitum_data_blocksign.Inventory.Positions.{Replaced, remove_in-Replaced}
use mitum_data_blocksign.Inventory.Lookup.{
  Named, WellFormed, find, find-perm, exists-find, WellFormed-perm,
}

find-append :
    (q : Bytes) (ds : List DocInfo) (d : DocInfo)
    → find (id_text d) ds ≡ none
    → find q (ds ++ d ∷ []) ≡ (if bytes_eq (id_text d) q then some d else find q ds)
unfolding find
find-append q [] d h = refl
find-append q (e ∷ ds) d h = ground (
  arith,
  find-append q ds d,
  bytes_eq_iff (id_text d) q,
  bytes_eq_iff (id_text e) q,
  bytes_eq_iff (id_text e) (id_text d),
)

All-append {ℓ} :
    {A : Type 0} (P : A → Type ℓ) (xs : List A) (x : A) → All P xs → P x → All P (xs ++ x ∷ [])
All-append P [] x h p = (p, tt)
All-append P (y ∷ ys) x h p = (h.0, All-append P ys x h.1 p)

fresh_apart :
    (ds : List DocInfo) (d : DocInfo)
    → find (id_text d) ds ≡ none
    → All (λ e. id_text e ≢ id_text d) ds
unfolding find
fresh_apart [] d h = tt
fresh_apart (e ∷ ds) d h = (
  λ q. ground (arith, bytes_eq_iff (id_text e) (id_text d)),
  fresh_apart ds d (ground (arith, bytes_eq_iff (id_text e) (id_text d))),
)

Distinct-append :
    (ds : List DocInfo) (d : DocInfo)
    → Distinct id_text ds
    → All (λ e. id_text e ≢ id_text d) ds
    → Distinct id_text (ds ++ d ∷ [])
Distinct-append [] d h a = (tt, tt)
Distinct-append (e ∷ ds) d h a = (
  All-append (λ y. id_text y ≢ id_text e) ds d h.0 (λ q. a.0 (sym q)),
  Distinct-append ds d h.1 a.1,
)

-- The inventory `b` is `div` with the info `d`, which it did not have.
pub record Appended (div : DocumentInventory) (d : DocInfo) (b : DocumentInventory) : Type 0 where
  pub formed : WellFormed b
  pub gains :
      (q : Bytes)
      → find q b.doc_infos ≡ (if bytes_eq (id_text d) q then some d else find q div.doc_infos)

module _ ⦃u : Util⦄ where
  abbrev pub AppendCases : DocumentInventory → DocInfo → Type 0
  AppendCases div d =
      ((old : DocInfo) × (find (id_text d) div.doc_infos ≡ some old)
        × (append div d ≡ err (document_already_in_inventory (id_text d))))
      ⊎ ((b : DocumentInventory) × (find (id_text d) div.doc_infos ≡ none)
          × (append div d ≡ ok b)
          × Appended div d b)

  -- `Append` of a valid info to a well-formed inventory is refused where the id is listed already;
  -- else the map gains the info at its id, keeps every other, and stays well-formed.
  pub append-cases :
      (div : DocumentInventory) (d : DocInfo)
      → WellFormed div
      → DocInfo.is_valid d ≡ ok tt
      → Named d
      → AppendCases div d
  unfolding append
  append-cases div d w v n = elim (Option-cases (find (id_text d) div.doc_infos)) [
    | inl fresh ↦ inr (
      record { doc_infos = div.doc_infos ++ d ∷ [] },
      fresh,
      rw (v, n, exists-find div (id_text d) w, fresh) refl,
      record {
        formed = record {
          named = All-append Named div.doc_infos d w.named n;
          distinct = Distinct-append div.doc_infos d w.distinct (fresh_apart div.doc_infos d fresh);
        };
        gains = λ q. find-append q div.doc_infos d fresh;
      },
    )
    | inr (old, found) ↦ inl (old, found, rw (v, n, exists-find div (id_text d) w, found) refl)
  ]

-- The inventory `b` is `div` without the id: the last info stands where the one with the id stood.
pub record Removed (div : DocumentInventory) (id : Bytes) (b : DocumentInventory) : Type 0 where
  pub old : DocInfo
  pub held : find id div.doc_infos ≡ some old
  pub replaced : Replaced old div.doc_infos b.doc_infos
  pub formed : WellFormed b
  pub loses :
      (q : Bytes) → find q b.doc_infos ≡ (if bytes_eq id q then none else find q div.doc_infos)

abbrev pub RemoveCases : DocumentInventory → DocInfo → Type 0
RemoveCases div d =
    ((find (id_text d) div.doc_infos ≡ none)
      × (romove div d ≡ err (document_not_in_inventory (id_text d))))
    ⊎ ((b : DocumentInventory) × (romove div d ≡ ok b) × Removed div (id_text d) b)

remove_in-Removed :
    (div : DocumentInventory) (id : Bytes) (old : DocInfo)
    → WellFormed div
    → find id div.doc_infos ≡ some old
    → (rest : List DocInfo) × (remove_in id div.doc_infos ≡ ok rest)
      × Removed div id (record { doc_infos = rest })
remove_in-Removed div id old w held =
    let (rest, e, p) = remove_in-perm id div.doc_infos w.named in
    let (rest', e', replaced) = remove_in-Replaced id old div.doc_infos w.named held in
    let same : rest' ≡ rest = cc in
    let distinct = Distinct-erase_id id div.doc_infos w.distinct in
    (
      rest,
      e,
      record {
        old = old;
        held = held;
        replaced = subst (Replaced old div.doc_infos) same replaced;
        formed =
            WellFormed-perm {div = record { doc_infos = erase_id id div.doc_infos }}
              {b = record { doc_infos = rest }} p
              (record { named = All-erase_id Named id div.doc_infos w.named; distinct = distinct });
        loses = λ q. sym (find-perm q p distinct) ∙ find-erase_id id q div.doc_infos w.distinct;
      },
    )

-- `Romove` is refused where the id is not listed; else the map loses the id and keeps every other, and
-- of the list, the infos before the one that goes stay where they are, and the last of those behind
-- it, where there is one, takes its place before the rest of them.
pub romove-cases :
    (div : DocumentInventory) (d : DocInfo) → WellFormed div → Named d → RemoveCases div d
unfolding romove
romove-cases div d w n = elim (Option-cases (find (id_text d) div.doc_infos)) [
  | inl absent ↦ inl (absent, rw (n, exists-find div (id_text d) w, absent) refl)
  | inr (old, found) ↦
      let (rest, e, r) = remove_in-Removed div (id_text d) old w found in
      inr (record { doc_infos = rest }, rw (n, exists-find div (id_text d) w, found, e) refl, r)
]

Named-has_id : (d : DocInfo) → Named d → has_id d ≡ true
unfolding has_id id_string
Named-has_id d n = ground arith

pub Named-all_have_ids : (ds : List DocInfo) → All Named ds → all_have_ids ds ≡ true
unfolding all_have_ids
Named-all_have_ids [] n = refl
Named-all_have_ids (d ∷ ds) n = rw (Named-has_id d n.0, Named-all_have_ids ds n.1)

-- The inventory `b` holds what `div` holds, in the order of the ids.
pub record Sorted (div b : DocumentInventory) : Type 0 where
  pub formed : WellFormed b
  pub same : (q : Bytes) → find q b.doc_infos ≡ find q div.doc_infos
  pub ordered : IsSorted (by_key id_text) b.doc_infos

-- `Sort(true)` of a well-formed inventory does not panic, puts the infos in the order of their ids
-- and leaves the map as it was.
pub sort-Sorted :
    (div : DocumentInventory)
    → WellFormed div
    → (b : DocumentInventory) × (sort div true ≡ ok b) × Sorted div b
unfolding sort info_less
sort-Sorted div w =
    let p = sort_slice-perm (by_key id_text) div.doc_infos in
    (
      record { doc_infos = sort_slice (by_key id_text) div.doc_infos },
      ground (arith, Named-all_have_ids div.doc_infos w.named),
      record {
        formed = WellFormed-perm {div = div} (Permᴰ.symm p) w;
        same = λ q. sym (find-perm q (Permᴰ.symm p) w.distinct);
        ordered = sort_slice-IsSorted id_text div.doc_infos;
      },
    )
