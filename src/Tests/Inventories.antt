-- ===== src/Tests/Inventories.antt =====
-- Inventories of one and of two documents.
use mitum_data_blocksign.Prelude.{
  Bytes, bytes_eq, bytes_eq_iff, codes, bytes_lt, true, false, ◌≢◌, some, [], ◌∷◌, ok, panic, ◌≡◌,
  refl, for_each,
}
use mitum_data_blocksign.Mitum.{new_hint}
use mitum_data_blocksign.DocId.{DocIdKind}
use mitum_data_blocksign.DocInfo.{DocInfo, id_string, bs_doc_data_type}
use mitum_data_blocksign.DocInfo
use mitum_data_blocksign.Inventory.{DocumentInventory, id_text, sort, equal}
use mitum_data_blocksign.Inventory.Lookup.{Named, WellFormed, find, Answers, get-find}
use mitum_data_blocksign.Inventory.Changes.{
  AppendCases, append-cases, RemoveCases, romove-cases, Sorted, sort-Sorted,
}
use mitum_data_blocksign.Inventory.Comparison.{InOrder, equal_prefix}
use mitum_data_blocksign.Tests.Samples.{sample_util, first_id, first_info, first_inventory}

abbrev second_info : DocInfo
second_info = record {
  hint = new_hint "mitum-document-info";
  id = some (record { kind = DocIdKind.bs; hint = new_hint "mitum-document-id"; s = codes "2sdi" });
  doc_type = bs_doc_data_type;
}

first-Named : Named first_info
unfolding id_string id_text
first-Named = refl

second-Named : Named second_info
unfolding id_string id_text
second-Named = refl

second-valid : DocInfo.is_valid second_info ≡ ok tt
unfolding DocInfo.is_valid for_each
second-valid = refl

first-WellFormed : WellFormed first_inventory
first-WellFormed = record { named = (first-Named, tt); distinct = (tt, tt) }

get-find_example : Answers first_inventory first_id (find first_id first_inventory.doc_infos)
get-find_example = get-find first_inventory first_id first-WellFormed

append-cases_example : AppendCases first_inventory second_info
append-cases_example =
    append-cases first_inventory second_info first-WellFormed second-valid second-Named

abbrev third_info : DocInfo
third_info = record second_info {
  id = some (record { kind = DocIdKind.bs; hint = new_hint "mitum-document-id"; s = codes "3sdi" });
}

third-Named : Named third_info
unfolding id_string id_text
third-Named = refl

abbrev three : DocumentInventory
three = record { doc_infos = first_info ∷ second_info ∷ third_info ∷ [] }

-- Texts that `bytes_eq` tells apart.
apart : (a b : Bytes) → bytes_eq a b ≡ false → a ≢ b
apart a b h e = cc ((bytes_eq_iff a b).1 e)

three-WellFormed : WellFormed three
unfolding id_text bytes_eq
three-WellFormed = record {
  named = (first-Named, (second-Named, (third-Named, tt)));
  distinct = (
    (apart (codes "2sdi") first_id refl, (apart (codes "3sdi") first_id refl, tt)),
    ((apart (codes "3sdi") (codes "2sdi") refl, tt), (tt, tt)),
  );
}

romove-cases_example : RemoveCases three first_info
romove-cases_example = romove-cases three first_info three-WellFormed first-Named

sort-Sorted_example :
    (b : DocumentInventory) × (sort first_inventory true ≡ ok b) × Sorted first_inventory b
sort-Sorted_example = sort-Sorted first_inventory first-WellFormed

first-InOrder : InOrder (first_info ∷ [])
first-InOrder = record { named = (first-Named, tt); ordered = (tt, tt) }

both-InOrder : InOrder (first_info ∷ second_info ∷ [])
unfolding id_text bytes_lt
both-InOrder = record {
  named = (first-Named, (second-Named, tt));
  ordered = ((refl, tt), (tt, tt));
}

equal_prefix_example :
    (equal first_inventory first_inventory ≡ ok true)
    × (equal first_inventory (record { doc_infos = first_info ∷ second_info ∷ [] }) ≡ ok true)
    × (equal (record { doc_infos = first_info ∷ second_info ∷ [] }) first_inventory ≡ panic)
equal_prefix_example = equal_prefix (first_info ∷ []) second_info [] first-InOrder both-InOrder
