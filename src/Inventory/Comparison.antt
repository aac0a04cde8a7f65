-- ===== src/Inventory/Comparison.antt =====
-- What `Equal` of inventories compares.
use mitum_data_blocksign.Prelude.{
  bytes_eq_refl, true, List, [], ◌∷◌, ◌++◌, ◌≡◌, refl, ok, panic, arith, All, by_key, IsSorted,
  sort_sorted,
}
use text.Mathlib.TextPositions.{eq_refl}
use mitum_data_blocksign.DocInfo.{DocInfo, id_string}
use mitum_data_blocksign.DocInfo
use mitum_data_blocksign.Inventory.{DocumentInventory, id_text, sort, equal, equal_in, info_less}
use mitum_data_blocksign.Inventory.Lookup.{Named}
use mitum_data_blocksign.Inventory.Changes.{Named-all_have_ids}

-- Infos with ids, in the order of the ids.
pub record InOrder (ds : List DocInfo) : Type 0 where
  pub named : All Named ds
  pub ordered : IsSorted (by_key id_text) ds

sort-InOrder :
    (ds : List DocInfo)
    → InOrder ds
    → sort (record { doc_infos = ds }) true ≡ ok (record { doc_infos = ds })
unfolding sort info_less
sort-InOrder ds h = ground (arith, Named-all_have_ids ds h.named, sort_sorted id_text ds h.ordered)

info_equal_self : (d : DocInfo) → Named d → DocInfo.equal d d ≡ ok true
unfolding DocInfo.equal
info_equal_self d n = rw (n, bytes_eq_refl (id_text d), eq_refl d.doc_type) refl

equal_in_prefix : (ds extra : List DocInfo) → All Named ds → equal_in ds (ds ++ extra) ≡ ok true
unfolding equal_in
equal_in_prefix [] extra n = refl
equal_in_prefix (d ∷ ds) extra n = rw (info_equal_self d n.0) (equal_in_prefix ds extra n.1)

equal_in_longer :
    (ds : List DocInfo) (x : DocInfo) (extra : List DocInfo)
    → All Named ds
    → equal_in (ds ++ x ∷ extra) ds ≡ panic
unfolding equal_in
equal_in_longer [] x extra n = refl
equal_in_longer (d ∷ ds) x extra n = rw (info_equal_self d n.0) (equal_in_longer ds x extra n.1)

equal_in_self : (ds : List DocInfo) → All Named ds → equal_in ds ds ≡ ok true
unfolding equal_in
equal_in_self [] n = refl
equal_in_self (d ∷ ds) n = rw (info_equal_self d n.0) (equal_in_self ds n.1)

pub equal_prefix :
    (ds : List DocInfo) (x : DocInfo) (extra : List DocInfo)
    → InOrder ds
    → InOrder (ds ++ x ∷ extra)
    → let div : DocumentInventory = record { doc_infos = ds } in
      let longer : DocumentInventory = record { doc_infos = ds ++ x ∷ extra } in
      (equal div div ≡ ok true) × (equal div longer ≡ ok true) × (equal longer div ≡ panic)
unfolding equal
equal_prefix ds x extra h k =
    let shorter = sort-InOrder ds h in
    let longer = sort-InOrder (ds ++ x ∷ extra) k in
    (
      rw shorter (equal_in_self ds h.named),
      rw (shorter, longer) (equal_in_prefix ds (x ∷ extra) h.named),
      rw (shorter, longer) (equal_in_longer ds x extra h.named),
    )
