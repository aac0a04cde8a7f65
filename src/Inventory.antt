-- ===== src/Inventory.antt =====
-- document/document_inventory.go: the list of the documents that an account has created, as
-- `DocumentInventory` and its methods. An info without an id (a nil `DocId`) makes each method that
-- asks for its text panic. `Hint` returns a constant, so the record holds the list alone.
pub mod Lookup
pub mod Erasure
pub mod Positions
pub mod Changes
pub mod Comparison
use Prim.Native.String.{String}
use mitum_data_blocksign.Prelude.{
  Bytes, bytes_eq, Bool, true, false, not, ◌&&◌, ◌||◌, Option, none, some, List, [], ◌∷◌, ◌++◌, map,
  length, ltb, if◌then◌else◌, ok, err, panic, ◌>>=◌, ◌>>◌, for_each, map_each, sort_slice, bytes_lt,
}
use mitum_data_blocksign.Error.{document_not_in_inventory, document_already_in_inventory}
use mitum_data_blocksign.Mitum.{Outcome, Validity, Util}
use mitum_data_blocksign.DocInfo.{DocInfo, id_string}
use mitum_data_blocksign.DocInfo

abbrev pub document_inventory_type : String
document_inventory_type = "mitum-document-inventory"

pub record DocumentInventory : Type 0 where
  pub doc_infos : List DocInfo

-- `NewDocumentInventory`; a nil slice is the empty one.
abbrev pub new_document_inventory : List DocInfo → DocumentInventory
new_document_inventory doc_infos = record { doc_infos = doc_infos }

pub is_empty : DocumentInventory → Bool
is_empty div = ltb (length div.doc_infos) 1

-- The loop of `Exists`
unfoldable pub exists_in : Bytes → List DocInfo → Outcome Bool
exists_in id [] = ok false
exists_in id (d ∷ ds) = do x ← id_string d.id; if bytes_eq id x then ok true else exists_in id ds

-- `Exists`
unfoldable pub exists : DocumentInventory → Bytes → Outcome Bool
exists div id = if ltb (length div.doc_infos) 1 then ok false else exists_in id div.doc_infos

-- The loop of `Get`
get_in : Bytes → List DocInfo → Outcome DocInfo
get_in id [] = err (document_not_in_inventory id)
get_in id (d ∷ ds) = do x ← id_string d.id; if bytes_eq x id then ok d else get_in id ds

-- `Get`
unfoldable pub get : DocumentInventory → Bytes → Outcome DocInfo
unfolding get_in
get div id = get_in id div.doc_infos

-- The loop of `Romove`: the last info takes the place of the one that is removed.
last_of : DocInfo → List DocInfo → DocInfo
last_of d [] = d
last_of d (e ∷ es) = last_of e es

init_of : DocInfo → List DocInfo → List DocInfo
init_of d [] = []
init_of d (e ∷ es) = d ∷ init_of e es

fill_gap : List DocInfo → List DocInfo
unfolding last_of init_of
fill_gap [] = []
fill_gap (d ∷ ds) = last_of d ds ∷ init_of d ds

pub remove_in : Bytes → List DocInfo → Outcome (List DocInfo)
remove_in id [] = ok []
remove_in id (d ∷ ds) = do
  x ← id_string d.id
  if bytes_eq id x then ok (fill_gap ds) else (remove_in id ds >>= λ rest. ok (d ∷ rest))

-- `Romove`
pub romove : DocumentInventory → DocInfo → Outcome DocumentInventory
romove div d = do
  id ← id_string d.id
  found ← exists div id
  if not found
      then err (document_not_in_inventory id)
      else (remove_in id div.doc_infos >>= λ rest. ok (record { doc_infos = rest }))

-- The text of an id, where there is one.
unfoldable pub id_text : DocInfo → Bytes
id_text d = elim d.id [ none ↦ [] | some x ↦ x.s ]

has_id : DocInfo → Bool
has_id d = elim d.id [ none ↦ false | some _ ↦ true ]

pub all_have_ids : List DocInfo → Bool
all_have_ids [] = true
all_have_ids (d ∷ ds) = has_id d && all_have_ids ds

-- The `less` of `Sort`
unfoldable pub info_less : Bool → DocInfo → DocInfo → Bool
info_less ascending x y =
    if ascending then bytes_lt (id_text x) (id_text y) else bytes_lt (id_text y) (id_text x)

-- `Sort`: `sort.Slice` compares no element of a shorter list than two, and each one of a longer.
unfoldable pub sort : DocumentInventory → Bool → Outcome DocumentInventory
unfolding all_have_ids has_id
sort div ascending =
    if ltb (length div.doc_infos) 2 || all_have_ids div.doc_infos
    then ok (record { doc_infos = sort_slice (info_less ascending) div.doc_infos })
    else panic

-- The loop of `Equal`: it runs over the first list, and indexes the second.
equal_in : List DocInfo → List DocInfo → Outcome Bool
equal_in [] bs = ok true
equal_in (d ∷ ds) [] = panic
equal_in (d ∷ ds) (b ∷ bs) = do
  same ← DocInfo.equal d b
  if not same then ok false else equal_in ds bs

-- `Equal`
pub equal : DocumentInventory → DocumentInventory → Outcome Bool
unfolding equal_in
equal div b = do x ← sort div true; y ← sort b true; equal_in x.doc_infos y.doc_infos

module _ ⦃u : Util⦄ where
  -- `Bytes`
  pub bytes : DocumentInventory → Outcome Bytes
  bytes div = do bs ← map_each DocInfo.bytes div.doc_infos; ok (u.concat_bytes bs)

  -- `GenerateHash`
  pub generate_hash : DocumentInventory → Outcome Bytes
  generate_hash div = do b ← bytes div; ok (u.sha256 b)

  -- `IsValid`
  pub is_valid : DocumentInventory → Validity
  is_valid div = for_each DocInfo.is_valid div.doc_infos

  -- `Append`
  unfoldable pub append : DocumentInventory → DocInfo → Outcome DocumentInventory
  append div d = do
    DocInfo.is_valid d
    id ← id_string d.id
    found ← exists div id
    if found
        then err (document_already_in_inventory id)
        else ok (record { doc_infos = div.doc_infos ++ d ∷ [] })
