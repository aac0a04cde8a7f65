-- ===== src/Encoding/Facts.antt =====
-- The encoded forms of items, facts and inventories, and `DecodeDocument`.
use Prim.Native.String.{String}
use mitum_data_blocksign.Prelude.{Bytes, Option, none, some, List, map, map_each, ok, ◌>>=◌}
use mitum_data_blocksign.Mitum.{Outcome, Hint, new_hint, Addresses}
use mitum_data_blocksign.DocData.{DocumentData}
use mitum_data_blocksign.Inventory.{DocumentInventory, document_inventory_type}
use mitum_data_blocksign.Fact.{CreateDocumentsItem, UpdateDocumentsItem, SignDocumentItem, Fact}
use mitum_data_blocksign.Encoding.{
  Format, json, bson, Tree, text, blob, array, trees, object, no_fields, field, get_field,
  read_text, read_blob,
}
use mitum_data_blocksign.Encoding.Hinted.{
  Hinted, Encoder, as_data, as_doc_info, as_create_item, as_update_item, as_sign_item,
}
use mitum_data_blocksign.Encoding.Ids.{pack_doc_info}
use mitum_data_blocksign.Encoding.Data.{pack_data}

module _ {A : Type 0} ⦃a : Addresses A⦄ where
  -- `CreateDocumentsItemImpl.MarshalJSON`
  unfoldable pub pack_create_item : CreateDocumentsItem A → Tree
  pack_create_item it =
      object it.hint (field "doc" (pack_data it.doc) (field "currency" (text it.cid) no_fields))

  -- `UpdateDocumentsItemImpl.MarshalJSON`
  unfoldable pub pack_update_item : UpdateDocumentsItem A → Tree
  pack_update_item it =
      object it.hint (field "doc" (pack_data it.doc) (field "currency" (text it.cid) no_fields))

  -- `BaseSignDocumentsItem.MarshalJSON`
  unfoldable pub pack_sign_item : SignDocumentItem A → Tree
  pack_sign_item it = object it.hint (
      field "documentid" (text it.id) (
        field "owner" (text (a.address_string it.owner))
          (field "currency" (text it.cid) no_fields)))

  -- `MarshalJSON` of a fact, over the form of its items
  unfoldable pub pack_fact : {I : Type 0} → (I → Tree) → Fact A I → Tree
  pack_fact pack_item fact = object fact.hint (
      field "hash" (blob fact.h) (
        field "token" (blob fact.token) (
          field "sender" (text (a.address_string fact.sender))
            (field "items" (array (trees (map pack_item fact.items))) no_fields))))

-- `DocumentInventory.MarshalJSON` and `MarshalBSON`
unfoldable pub pack_inventory : DocumentInventory → Tree
pack_inventory div =
    object (new_hint document_inventory_type)
      (field "documents" (array (trees (map pack_doc_info div.doc_infos))) no_fields)

-- The tag in `DocumentInventoryJSONUnpacker` and `DocumentInventoryBSONUnpacker`
unfoldable pub inventory_tag : Format → String
inventory_tag json = "address"
inventory_tag bson = "documents"

module _ {A : Type 0} (enc : Encoder A) where
  unfoldable pub decode_data : Option Tree → Outcome (DocumentData A)
  decode_data b = do hinter ← enc.decode b; as_data hinter

  -- `CreateDocumentsItemImpl.unpack`
  unfoldable pub unpack_create_item_fields :
      Hint → Option Tree → Bytes → Outcome (CreateDocumentsItem A)
  unpack_create_item_fields h bdd scid = do
    d ← decode_data bdd
    ok (record { hint = h; doc = d; cid = scid })

  -- `CreateDocumentsItemImpl.UnpackJSON`; the type that it also reads is not used.
  unfoldable pub unpack_create_item : Hint → Tree → Outcome (CreateDocumentsItem A)
  unpack_create_item h t = do
    _ ← read_text (get_field "doctype" t)
    ci ← read_text (get_field "currency" t)
    unpack_create_item_fields h (get_field "doc" t) ci

  -- `UpdateDocumentsItemImpl.unpack`
  unfoldable pub unpack_update_item_fields :
      Hint → Option Tree → Bytes → Outcome (UpdateDocumentsItem A)
  unpack_update_item_fields h bdd scid = do
    d ← decode_data bdd
    ok (record { hint = h; doc = d; cid = scid })

  -- `UpdateDocumentsItemImpl.UnpackJSON`
  unfoldable pub unpack_update_item : Hint → Tree → Outcome (UpdateDocumentsItem A)
  unpack_update_item h t = do
    ci ← read_text (get_field "currency" t)
    unpack_update_item_fields h (get_field "doc" t) ci

  -- `BaseSignDocumentsItem.unpack`
  unfoldable pub unpack_sign_item_fields :
      Hint → Bytes → Bytes → Bytes → Outcome (SignDocumentItem A)
  unpack_sign_item_fields h di ow scid = do
    x ← enc.decode_address ow
    ok (record { hint = h; id = di; owner = x; cid = scid })

  -- `BaseSignDocumentsItem.UnpackJSON`
  unfoldable pub unpack_sign_item : Hint → Tree → Outcome (SignDocumentItem A)
  unpack_sign_item h t = do
    di ← read_text (get_field "documentid" t)
    ow ← read_text (get_field "owner" t)
    ci ← read_text (get_field "currency" t)
    unpack_sign_item_fields h di ow ci

  -- The loop of an `unpack` over a decoded slice, with the type assertion on each element
  unfoldable pub decode_items :
      {I : Type 0} → (Option (Hinted A) → Outcome I) → Option Tree → Outcome (List I)
  decode_items as_item bits = do hits ← enc.decode_slice bits; map_each as_item hits

  -- `unpack` of a fact, over the type assertion on its items
  unfoldable pub unpack_fact_fields :
      {I : Type 0}
      → (Option (Hinted A) → Outcome I)
      → Hint
      → Bytes
      → Bytes
      → Bytes
      → Option Tree
      → Outcome (Fact A I)
  unpack_fact_fields as_item h hash tk sd bits = do
    sender ← enc.decode_address sd
    its ← decode_items as_item bits
    ok (record { hint = h; h = hash; token = tk; sender = sender; items = its })

  -- `UnpackJSON` of a fact
  unfoldable pub unpack_fact :
      {I : Type 0} → (Option (Hinted A) → Outcome I) → Hint → Tree → Outcome (Fact A I)
  unpack_fact as_item h t = do
    hash ← read_blob (get_field "hash" t)
    tk ← read_blob (get_field "token" t)
    sd ← read_text (get_field "sender" t)
    unpack_fact_fields as_item h hash tk sd (get_field "items" t)

  unfoldable pub unpack_create_fact : Hint → Tree → Outcome (Fact A (CreateDocumentsItem A))
  unpack_create_fact = unpack_fact as_create_item

  unfoldable pub unpack_update_fact : Hint → Tree → Outcome (Fact A (UpdateDocumentsItem A))
  unpack_update_fact = unpack_fact as_update_item

  unfoldable pub unpack_sign_fact : Hint → Tree → Outcome (Fact A (SignDocumentItem A))
  unpack_sign_fact = unpack_fact as_sign_item

  -- `DocumentInventory.unpack`
  unfoldable pub unpack_inventory_fields : Option Tree → Outcome DocumentInventory
  unpack_inventory_fields dis = do ds ← decode_items as_doc_info dis; ok (record { doc_infos = ds })

  -- `DocumentInventory.UnpackJSON` and `UnpackBSON`
  unfoldable pub unpack_inventory : Tree → Outcome DocumentInventory
  unpack_inventory t = unpack_inventory_fields (get_field (inventory_tag enc.format) t)

  -- `DecodeDocument`: nil stays nil.
  unfoldable pub decode_document : Option Tree → Outcome (Option (DocumentData A))
  decode_document b = do
    hinter ← enc.decode b
    elim hinter [ none ↦ ok none | some v ↦ as_data (some v) >>= λ d. ok (some d) ]
