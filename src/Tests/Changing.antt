-- ===== src/Tests/Changing.antt =====
-- The update and the signing of documents, at one document of a chain that has it.
use mitum_data_blocksign.Prelude.{
  pos, Bytes, codes, bytes_eq, true, some, [], ◌∷◌, ◌≡◌, refl, ok, for_each, map_each, ◌+ℤ◌,
}
use mitum_data_blocksign.Mitum.{new_hint}
use mitum_data_blocksign.DocInfo.{id_string}
use mitum_data_blocksign.DocInfo
use mitum_data_blocksign.DocParts.{sign_is_valid, new_doc_sign, set_signed}
use mitum_data_blocksign.DocData.{DocumentData, bs_doc, bs_doc_is_valid}
use mitum_data_blocksign.DocData
use mitum_data_blocksign.Inventory
use mitum_data_blocksign.Chain.{Value, document_data}
use mitum_data_blocksign.State.{
  check_exists_state, exists_state, state_key_documents, state_key_document_data,
  state_documents_value, state_document_data_value, set_state_document_data_value,
  check_fact_signs_by_state, check_threshold, sum_weights,
}
use mitum_data_blocksign.Fee.{
  CurrencyPool, calculate_update_document_items_fee, calculate_sign_document_items_fee,
  calculate_fees, item_fee, add_item_fee, required_at, set_required,
  check_document_owner_enough_balance, check_balance,
}
use mitum_data_blocksign.Fact.{
  Fact, UpdateDocumentsItem, SignDocumentItem, update_item_is_valid, sign_item_is_valid,
}
use mitum_data_blocksign.Process.Writes.{Writes}
use mitum_data_blocksign.Process.Update.{UpdateDocumentsItemProcessor, UpdateDocumentsProcessor}
use mitum_data_blocksign.Process.Update
use mitum_data_blocksign.Process.Update.Accepts.{Updated, update-Updated}
use mitum_data_blocksign.Process.Update.Sender.{item_pre_process-any_sender}
use mitum_data_blocksign.Process.Sign.{SignDocumentsProcessor, sign_state, as_bs_doc, mark_signed}
use mitum_data_blocksign.Process.Sign
use mitum_data_blocksign.Process.Sign.Accepts.{Signed, sign-Signed}
use mitum_data_blocksign.Tests.Samples.{
  text_addresses, sample_util, Cell, Coins, cells, cells_laws, alice, bob, mcc, first_id, first_doc,
  first_data, first_inventory, with_document, get_from, empty_cell,
}

abbrev pool : CurrencyPool
pool = some (λ cid. some (ok (pos 2)))

-- The document with another title.
abbrev renamed : DocumentData Bytes
renamed = bs_doc (record first_data { title = codes "u" })

abbrev first_state : Cell
first_state = record empty_cell { value = some (document_data first_doc) }

abbrev inventory_state : Cell
inventory_state = record empty_cell { value = some (Value.document_inventory first_inventory) }

abbrev update_item : UpdateDocumentsItem Bytes
update_item = record {
  hint = new_hint "mitum-blocksign-update-documents-item";
  doc = renamed;
  cid = mcc;
}

abbrev update_by : Bytes → Fact Bytes (UpdateDocumentsItem Bytes)
update_by sender = record {
  hint = new_hint "mitum-blocksign-update-documents-operation-fact";
  h = [];
  token = [];
  sender = sender;
  items = update_item ∷ [];
}

abbrev updated_item : Bytes → UpdateDocumentsItemProcessor Bytes Cell
updated_item sender = record {
  sender = sender;
  item = update_item;
  nds = record empty_cell { value = some (document_data renamed) };
  dinv = first_inventory;
  ndinvs = inventory_state;
}

abbrev updated : Bytes → UpdateDocumentsProcessor Bytes Cell Coins
updated sender = record {
  sb = (mcc, record { cid = mcc; left = pos 10; paid = pos 0 }) ∷ [];
  ns = updated_item sender ∷ [];
  required = (mcc, pos 2, pos 2) ∷ [];
}

updated_item-ok :
    Update.item_pre_process cells (get_from with_document) alice update_item
    ≡ ok (updated_item alice)
unfolding Update.item_pre_process update_item_is_valid DocData.is_valid bs_doc_is_valid
    DocInfo.is_valid sign_is_valid DocData.document_id DocInfo.document_id DocData.info
    DocData.owner id_string state_key_documents state_key_document_data state_documents_value
    state_document_data_value set_state_document_data_value get_from bytes_eq for_each
updated_item-ok = refl

updated-ok :
    Update.pre_process cells pool (get_from with_document) (update_by alice) (alice ∷ [])
    ≡ ok (updated alice)
unfolding Update.pre_process Update.item_pre_process update_item_is_valid DocData.is_valid
    bs_doc_is_valid DocInfo.is_valid sign_is_valid DocData.document_id DocInfo.document_id
    DocData.info DocData.owner id_string state_key_documents state_key_document_data
    state_documents_value state_document_data_value set_state_document_data_value get_from bytes_eq
    for_each map_each ◌+ℤ◌ check_exists_state exists_state calculate_update_document_items_fee
    calculate_fees item_fee add_item_fee required_at set_required
    check_document_owner_enough_balance check_balance check_fact_signs_by_state check_threshold
    sum_weights
updated-ok = refl

update-Updated_example :
    (w : Writes Cell Coins) × Updated cells cells_laws
      (get_from with_document)
      (update_by alice)
      (alice ∷ [])
      (updated alice)
      w
update-Updated_example =
    update-Updated cells cells_laws (get_from with_document) pool (update_by alice) (alice ∷ [])
      (updated alice) updated-ok

-- The document is alice's, and bob passes too.
item_pre_process-any_sender_example :
    Update.item_pre_process cells (get_from with_document) bob update_item ≡ ok (updated_item bob)
item_pre_process-any_sender_example =
    item_pre_process-any_sender cells (get_from with_document) alice bob update_item
      (updated_item alice) updated_item-ok

abbrev sign_fact : Fact Bytes (SignDocumentItem Bytes)
sign_fact = record {
  hint = new_hint "mitum-blocksign-sign-documents-operation-fact";
  h = [];
  token = [];
  sender = bob;
  items =
      record {
        hint = new_hint "mitum-blocksign-sign-item-single-document";
        id = first_id;
        owner = alice;
        cid = mcc;
      }
      ∷ [];
}

abbrev signed_doc : DocumentData Bytes
signed_doc = bs_doc (record first_data {
  signers = new_doc_sign alice (codes "a") true ∷ new_doc_sign bob (codes "b") true ∷ [];
})

abbrev signed : SignDocumentsProcessor Bytes Cell Coins
signed = record {
  sb = (mcc, record { cid = mcc; left = pos 10; paid = pos 0 }) ∷ [];
  ns =
      record {
        sender = bob;
        item = record {
          hint = new_hint "mitum-blocksign-sign-item-single-document";
          id = first_id;
          owner = alice;
          cid = mcc;
        };
        nds = record empty_cell { value = some (document_data signed_doc) };
        dinv = first_inventory;
        ndinvs = inventory_state;
      }
      ∷ [];
  required = (mcc, pos 2, pos 2) ∷ [];
}

signed-ok : Sign.pre_process cells pool (get_from with_document) sign_fact (bob ∷ []) ≡ ok signed
unfolding Sign.pre_process Sign.item_pre_process sign_item_is_valid sign_state as_bs_doc mark_signed
    set_signed Inventory.get id_string state_key_documents state_key_document_data
    state_documents_value state_document_data_value set_state_document_data_value get_from bytes_eq
    for_each map_each ◌+ℤ◌ check_exists_state exists_state calculate_sign_document_items_fee
    calculate_fees item_fee add_item_fee required_at set_required
    check_document_owner_enough_balance check_balance check_fact_signs_by_state check_threshold
    sum_weights
signed-ok = refl

sign-Signed_example :
    (w : Writes Cell Coins) × Signed cells cells_laws
      (get_from with_document)
      sign_fact
      (bob ∷ [])
      signed
      w
sign-Signed_example =
    sign-Signed cells cells_laws (get_from with_document) pool sign_fact (bob ∷ []) signed signed-ok
