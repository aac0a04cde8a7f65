-- ===== src/Encoding/RoundTrip/Facts.antt =====
-- Documents, facts and inventories.
use mitum_data_blocksign.Prelude.{bytes_eq, Option, some, List, [], ◌∷◌, ◌≡◌, refl, ok, All}
use mitum_data_blocksign.Mitum.{Outcome, Addresses}
use mitum_data_blocksign.DocData.{Document}
use mitum_data_blocksign.Inventory.{DocumentInventory}
use mitum_data_blocksign.Fact.{
  Fact, CreateDocumentsItem, UpdateDocumentsItem, SignDocumentItem, create_documents_item_type,
  update_documents_item_type, sign_item_single_document_type,
}
use mitum_data_blocksign.Encoding.{json, bson, same_name, field_of, get_field, read_text, read_blob}
use mitum_data_blocksign.Encoding.Hinted.{
  Hinted, Encoder, doc_info, data_of, create_item, update_item, sign_item, as_doc_info,
  as_create_item, as_update_item, as_sign_item, as_data,
}
use mitum_data_blocksign.Encoding.Ids.{pack_doc_info}
use mitum_data_blocksign.Encoding.Data.{pack_data, pack_document, unpack_document}
use mitum_data_blocksign.Encoding.Facts.{
  decode_items, pack_create_item, pack_update_item, pack_sign_item, pack_fact, unpack_fact,
  unpack_fact_fields, unpack_create_fact, unpack_update_fact, unpack_sign_fact, pack_inventory,
  inventory_tag, unpack_inventory, unpack_inventory_fields, decode_document,
}
use mitum_data_blocksign.Encoding.Hinters.{DataPackable, Packable, InfoPackable, pack, EncoderLaws}
use mitum_data_blocksign.Encoding.RoundTrip.Data.{Decodes, slice-pack}
use mitum_data_blocksign.Encoding.RoundTrip.Hinted.{decode-pack}

module _ {A : Type 0} ⦃a : Addresses A⦄ (enc : Encoder A) (laws : EncoderLaws enc) where
  -- A document is read back, and so is its data by `DecodeDocument`, where the data can be packed: its
  -- hints are those of its type and of the types of its parts, and its info has an id.
  pub unpack_document-pack :
      (d : Document A)
      → DataPackable d.content
      → (unpack_document enc d.hint (pack_document d) ≡ ok d)
        × (decode_document enc (some (pack_data d.content)) ≡ ok (some d.content))
  unfolding unpack_document pack_document decode_document get_field field_of same_name bytes_eq
      as_data pack
  unpack_document-pack d h =
      let e : Decodes enc (pack_data d.content) (data_of d.content) =
        decode-pack enc laws (data_of d.content) h in
      (rw e refl, rw e refl)

  decode_each :
      {X : Type 0} (inject : X → Hinted A) (xs : List X)
      → All (λ x. Packable (inject x)) xs
      → All (λ x. Decodes enc (pack (inject x)) (inject x)) xs
  decode_each inject [] h = tt
  decode_each inject (x ∷ xs) h = (decode-pack enc laws (inject x) h.0, decode_each inject xs h.1)

  unpack_fact-pack :
      {I : Type 0} (inject : I → Hinted A) (as_item : Option (Hinted A) → Outcome I)
      → ((i : I) → as_item (some (inject i)) ≡ ok i)
      → (fact : Fact A I) → All (λ i. Packable (inject i)) fact.items
      → unpack_fact enc as_item fact.hint (pack_fact (λ i. pack (inject i)) fact) ≡ ok fact
  unfolding unpack_fact unpack_fact_fields decode_items pack_fact get_field field_of same_name
      bytes_eq read_text read_blob
  unpack_fact-pack inject as_item asserted fact h =
      rw
        (
          laws.decode_address_string fact.sender,
          slice-pack enc laws.decode_address_string laws.decode_array (λ i. pack (inject i)) inject
              as_item asserted fact.items (decode_each inject fact.items h),
        )
        refl

  -- The three facts are read back, where their items can be packed: each has the hint of its type, and
  -- its document can be packed.
  pub unpack_facts-pack :
      (created : Fact A (CreateDocumentsItem A)) (updated : Fact A (UpdateDocumentsItem A))
      (signed : Fact A (SignDocumentItem A))
      → All (λ i. (i.hint.ty ≡ create_documents_item_type) × DataPackable i.doc) created.items
      → All (λ i. (i.hint.ty ≡ update_documents_item_type) × DataPackable i.doc) updated.items
      → All (λ i. i.hint.ty ≡ sign_item_single_document_type) signed.items
      → (unpack_create_fact enc created.hint (pack_fact pack_create_item created) ≡ ok created)
        × (unpack_update_fact enc updated.hint (pack_fact pack_update_item updated) ≡ ok updated)
        × (unpack_sign_fact enc signed.hint (pack_fact pack_sign_item signed) ≡ ok signed)
  unfolding unpack_create_fact unpack_update_fact unpack_sign_fact as_create_item as_update_item
      as_sign_item pack
  unpack_facts-pack created updated signed c u s = (
    unpack_fact-pack create_item as_create_item (λ i. refl) created c,
    unpack_fact-pack update_item as_update_item (λ i. refl) updated u,
    unpack_fact-pack sign_item as_sign_item (λ i. refl) signed s,
  )

  -- An inventory whose infos can be packed is read back from BSON; what it is read back as from JSON
  -- does not depend on the inventory, since its documents are packed under one name and looked for
  -- under another.
  pub unpack_inventory-pack :
      (div b : DocumentInventory) (enc_json : Encoder A)
      → enc.format ≡ bson
      → enc_json.format ≡ json
      → All InfoPackable div.doc_infos
      → (unpack_inventory enc (pack_inventory div) ≡ ok div)
        × (unpack_inventory enc_json (pack_inventory div)
            ≡ unpack_inventory enc_json (pack_inventory b))
  unfolding unpack_inventory unpack_inventory_fields decode_items pack_inventory inventory_tag
      get_field field_of same_name bytes_eq as_doc_info pack
  unpack_inventory-pack div b enc_json f g h = (
    rw
        (
          f,
          slice-pack enc laws.decode_address_string laws.decode_array pack_doc_info doc_info
              as_doc_info (λ i. refl) div.doc_infos (decode_each doc_info div.doc_infos h),
        )
        refl,
    rw g refl,
  )
