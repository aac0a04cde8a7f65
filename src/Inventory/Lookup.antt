-- ===== src/Inventory/Lookup.antt =====
-- A well-formed inventory as a finite map from the texts of ids to infos, and its lookups.
use mathlib.Core.List.{Permᴰ}
use mitum_data_blocksign.Prelude.{
  Bytes, bytes_eq, bytes_eq_iff, Bool, true, false, Option, none, some, List, [], ◌∷◌, ◌≡◌, refl,
  ◌∙◌, inl, inr, ok, err, arith, All, All-perm, Distinct, Distinct-perm, Option-cases,
  if◌then◌else◌, ltb, length,
}
use mitum_data_blocksign.Error.{document_not_in_inventory}
use mitum_data_blocksign.DocId.{DocId}
use mitum_data_blocksign.DocInfo.{DocInfo, id_string}
use mitum_data_blocksign.Inventory.{DocumentInventory, exists_in, exists, get_in, get, id_text}

-- The info has an id, whose text is `id_text`.
abbrev pub Named : DocInfo → Type 0
Named d = id_string d.id ≡ ok (id_text d)

-- Each info has an id, and no two infos have the same.
pub record WellFormed (div : DocumentInventory) : Type 0 where
  pub named : All Named div.doc_infos
  pub distinct : Distinct id_text div.doc_infos

-- The map that the list stands for.
unfoldable pub find : Bytes → List DocInfo → Option DocInfo
find id [] = none
find id (d ∷ ds) = if bytes_eq (id_text d) id then some d else find id ds

pub bytes_eq_comm : (a b : Bytes) → bytes_eq a b ≡ bytes_eq b a
bytes_eq_comm a b = ground (arith, bytes_eq_iff a b, bytes_eq_iff b a)

pub find-id_text :
    (id : Bytes) (ds : List DocInfo) (d : DocInfo) → find id ds ≡ some d → id_text d ≡ id
unfolding find
find-id_text id [] d h = cc
find-id_text id (e ∷ ds) d h = ground (arith, bytes_eq_iff (id_text e) id, find-id_text id ds d)

-- What `Get` and `Exists` answer for an id.
abbrev pub Answers : DocumentInventory → Bytes → Option DocInfo → Type 0
Answers div id none = (get div id ≡ err (document_not_in_inventory id)) × (exists div id ≡ ok false)
Answers div id (some d) = (get div id ≡ ok d) × (exists div id ≡ ok true)

get_in-find :
    (id : Bytes) (ds : List DocInfo)
    → All Named ds
    → get_in id ds ≡ elim (find id ds) [ none ↦ err (document_not_in_inventory id) | some d ↦ ok d ]
unfolding get_in find
get_in-find id [] n = refl
get_in-find id (d ∷ ds) n = rw (n.0) (ground (arith, get_in-find id ds n.1))

abbrev pub is_found : Option DocInfo → Bool
is_found none = false
is_found (some d) = true

exists_in-find :
    (id : Bytes) (ds : List DocInfo) → All Named ds → exists_in id ds ≡ ok (is_found (find id ds))
unfolding exists_in find
exists_in-find id [] n = refl
exists_in-find id (d ∷ ds) n =
    rw (n.0, bytes_eq_comm id (id_text d)) (ground (arith, exists_in-find id ds n.1))

exists_in_empty :
    (id : Bytes) (ds : List DocInfo)
    → (if ltb (length ds) 1 then ok false else exists_in id ds) ≡ exists_in id ds
unfolding exists_in
exists_in_empty id [] = refl
exists_in_empty id (d ∷ ds) = let e : ltb (length (d ∷ ds)) 1 ≡ false = ground arith in rw e

exists-exists_in :
    (div : DocumentInventory) (id : Bytes) → exists div id ≡ exists_in id div.doc_infos
unfolding exists
exists-exists_in div id = exists_in_empty id div.doc_infos

pub exists-find :
    (div : DocumentInventory) (id : Bytes)
    → WellFormed div
    → exists div id ≡ ok (is_found (find id div.doc_infos))
exists-find div id w = rw (exists-exists_in div id) (exists_in-find id div.doc_infos w.named)

-- `Get` returns the info that the map holds at the id, or an error where it holds none, and `Exists`
-- says which.
pub get-find :
    (div : DocumentInventory) (id : Bytes) → WellFormed div → Answers div id (find id div.doc_infos)
unfolding get
get-find div id w = elim (Option-cases (find id div.doc_infos)) [
  | inl e ↦
      rw e (rw (get_in-find id div.doc_infos w.named, e) refl, rw (exists-find div id w, e) refl)
  | inr (d, e) ↦
      rw e (rw (get_in-find id div.doc_infos w.named, e) refl, rw (exists-find div id w, e) refl)
]

pub find-perm :
    (id : Bytes) {xs ys : List DocInfo}
    → Permᴰ xs ys
    → Distinct id_text xs
    → find id xs ≡ find id ys
unfolding find
find-perm id Permᴰ.nil d = refl
find-perm id (Permᴰ.cons e p) d = rw (e, find-perm id p d.1)
find-perm id (Permᴰ.swap {a = a} {b = b} {l = l} e f) d =
    rw (← e, ← f) (ground (arith, bytes_eq_iff (id_text a) id, bytes_eq_iff (id_text b) id))
find-perm id (Permᴰ.trans p q) d = find-perm id p d ∙ find-perm id q (Distinct-perm id_text p d)

-- An inventory with the same infos in another order is well-formed, and is the same map.
pub WellFormed-perm :
    {div b : DocumentInventory} → Permᴰ div.doc_infos b.doc_infos → WellFormed div → WellFormed b
WellFormed-perm p w = record {
  named = All-perm Named p w.named;
  distinct = Distinct-perm id_text p w.distinct;
}

-- An info with an id is named by its text.
pub Named-some : (d : DocInfo) (x : DocId) → d.id ≡ some x → Named d
unfolding id_string id_text
Named-some d x e = ground arith
