-- ===== src/Fact.antt =====
-- The facts of the three operations and their items: document/create_documents.go,
-- document/update_documents.go, document/sign_documents.go and the items' files.
pub mod Limits
pub mod Rebuild
use Prim.Native.String.{String}
use mitum_data_blocksign.Prelude.{
  ℕ, Bytes, bytes_eq, Bool, true, false, not, ◌||◌, List, [], ◌∷◌, ◌++◌, any, map, length, ltb,
  if◌then◌else◌, ok, err, ◌>>=◌, ◌>>◌, fail_if, map_err, map_each,
}
use mitum_data_blocksign.Error.{
  Error, wrapped, empty_token, empty_items, items_over_max, wrong_fact_hash, duplicated_document,
}
use mitum_data_blocksign.Mitum.{Outcome, Validity, Hint, new_hint, Util, Addresses}
use mitum_data_blocksign.DocData.{DocumentData}
use mitum_data_blocksign.DocData

abbrev pub create_documents_item_type : String
create_documents_item_type = "mitum-create-documents-item"

abbrev pub update_documents_item_type : String
update_documents_item_type = "mitum-update-documents-item"

abbrev pub sign_item_single_document_type : String
sign_item_single_document_type = "mitum-blocksign-sign-item-single-document"

abbrev pub max_create_documents_items : ℕ
max_create_documents_items = 10

abbrev pub max_update_documents_items : ℕ
max_update_documents_items = 10

abbrev pub max_sign_documents_items : ℕ
max_sign_documents_items = 10

-- `CreateDocumentsItemImpl`, the one implementation of `CreateDocumentsItem`
pub record CreateDocumentsItem (A : Type 0) : Type 0 where
  pub hint : Hint
  pub doc : DocumentData A
  pub cid : Bytes

-- `UpdateDocumentsItemImpl`
pub record UpdateDocumentsItem (A : Type 0) : Type 0 where
  pub hint : Hint
  pub doc : DocumentData A
  pub cid : Bytes

-- `BaseSignDocumentsItem`, which `SignDocumentsItemSingleFile` embeds
pub record SignDocumentItem (A : Type 0) : Type 0 where
  pub hint : Hint
  pub id : Bytes
  pub owner : A
  pub cid : Bytes

-- `CreateDocumentsFact`, `UpdateDocumentsFact` and `SignDocumentsFact` differ in their items.
pub record Fact (A I : Type 0) : Type 0 where
  pub hint : Hint
  pub h : Bytes
  pub token : Bytes
  pub sender : A
  pub items : List I

-- The loop over the items with the map of the ids seen so far: each item is valid, and names a
-- document that no item before it names.
unfoldable pub check_items :
    {I : Type 0} → (I → Validity) → (I → Outcome Bytes) → List I → List Bytes → Validity
check_items item_is_valid document_id [] seen = ok tt
check_items item_is_valid document_id (it ∷ items) seen = do
  item_is_valid it
  k ← document_id it
  fail_if (any (bytes_eq k) seen) (duplicated_document k)
  check_items item_is_valid document_id items (k ∷ seen)

module _ {A : Type 0} ⦃a : Addresses A⦄ ⦃u : Util⦄ where
  unfoldable pub create_item_is_valid : CreateDocumentsItem A → Validity
  create_item_is_valid it = map_err wrapped (
      u.check
        (u.hinter_is_valid it.hint ∷ DocData.is_valid it.doc ∷ u.currency_id_is_valid it.cid ∷ []))

  unfoldable pub update_item_is_valid : UpdateDocumentsItem A → Validity
  update_item_is_valid it = map_err wrapped (
      u.check
        (u.hinter_is_valid it.hint ∷ DocData.is_valid it.doc ∷ u.currency_id_is_valid it.cid ∷ []))

  unfoldable pub sign_item_is_valid : SignDocumentItem A → Validity
  sign_item_is_valid it = do a.address_is_valid it.owner; u.currency_id_is_valid it.cid

  unfoldable pub create_item_bytes : CreateDocumentsItem A → Outcome Bytes
  create_item_bytes it = do d ← DocData.bytes it.doc; ok (u.concat_bytes (d ∷ it.cid ∷ []))

  unfoldable pub update_item_bytes : UpdateDocumentsItem A → Outcome Bytes
  update_item_bytes it = do d ← DocData.bytes it.doc; ok (u.concat_bytes (d ∷ it.cid ∷ []))

  unfoldable pub sign_item_bytes : SignDocumentItem A → Outcome Bytes
  sign_item_bytes it = ok (u.concat_bytes (it.id ∷ a.address_bytes it.owner ∷ it.cid ∷ []))

  -- `fact.Bytes`, over the bytes of the items
  unfoldable pub fact_bytes : {I : Type 0} → (I → Outcome Bytes) → Fact A I → Outcome Bytes
  fact_bytes item_bytes fact = do
    is ← map_each item_bytes fact.items
    ok (u.concat_bytes (fact.token ∷ a.address_bytes fact.sender ∷ u.concat_bytes is ∷ []))

  -- `fact.GenerateHash`
  unfoldable pub generate_fact_hash : {I : Type 0} → (I → Outcome Bytes) → Fact A I → Outcome Bytes
  generate_fact_hash item_bytes fact = do b ← fact_bytes item_bytes fact; ok (u.sha256 b)

  -- The tests of the token and of the number of items
  unfoldable pub check_size : {I : Type 0} → ℕ → Fact A I → Validity
  check_size max fact = do
    fail_if (ltb (length fact.token) 1) empty_token
    fail_if (ltb (length fact.items) 1) empty_items
    fail_if (ltb max (length fact.items)) items_over_max

  unfoldable pub check_hash : {I : Type 0} → (I → Outcome Bytes) → Fact A I → Validity
  check_hash item_bytes fact = do
    h ← generate_fact_hash item_bytes fact
    fail_if (not (bytes_eq fact.h h)) (wrapped wrong_fact_hash)

  -- `CreateDocumentsFact.IsValid`; `currency.IsValidOperationFact` is outside the repository.
  unfoldable pub create_fact_is_valid :
      (Fact A (CreateDocumentsItem A) → Validity) → Fact A (CreateDocumentsItem A) → Validity
  create_fact_is_valid is_valid_operation_fact fact = do
    u.hinter_is_valid fact.hint
    is_valid_operation_fact fact
    check_size max_create_documents_items fact
    u.check (a.address_is_valid fact.sender ∷ [])
    check_items (λ it. u.check (create_item_is_valid it ∷ [])) (λ it. DocData.document_id it.doc)
        fact.items []
    check_hash create_item_bytes fact

  -- `UpdateDocumentsFact.IsValid`
  unfoldable pub update_fact_is_valid :
      (Fact A (UpdateDocumentsItem A) → Validity) → Fact A (UpdateDocumentsItem A) → Validity
  update_fact_is_valid is_valid_operation_fact fact = do
    u.hinter_is_valid fact.hint
    is_valid_operation_fact fact
    check_size max_update_documents_items fact
    u.check (a.address_is_valid fact.sender ∷ [])
    check_items (λ it. u.check (update_item_is_valid it ∷ [])) (λ it. DocData.document_id it.doc)
        fact.items []
    check_hash update_item_bytes fact

  -- `SignDocumentsFact.IsValid`: the number of items is held to the maximum for creating documents.
  unfoldable pub sign_fact_is_valid :
      (Fact A (SignDocumentItem A) → Validity) → Fact A (SignDocumentItem A) → Validity
  sign_fact_is_valid is_valid_operation_fact fact = do
    u.hinter_is_valid fact.hint
    is_valid_operation_fact fact
    check_size max_create_documents_items fact
    u.check (u.hash_is_valid fact.h ∷ a.address_is_valid fact.sender ∷ [])
    check_items sign_item_is_valid (λ it. ok it.id) fact.items []
    check_hash sign_item_bytes fact
