-- ===== src/Tests/Creating.antt =====
-- The creation of documents, at a creation of one document.
use mitum_data_blocksign.Prelude.{
  pos, Bytes, codes, bytes_eq, some, [], ◌∷◌, ◌≡◌, ◌≢◌, ◌↔◌, arith, refl, ok, panic, for_each,
  map_each, ◌+ℤ◌,
}
use mitum_data_blocksign.Mitum.{new_hint}
use mitum_data_blocksign.Prelude.{sort_slice, insert_by}
use mitum_data_blocksign.Inventory.{info_less}
use mitum_data_blocksign.Inventory
use mitum_data_blocksign.State.{
  set_state_document_data_value, state_document_data_value, set_state_documents_value,
}
use mitum_data_blocksign.Fee.{charge, balance_at}
use mitum_data_blocksign.Process.Create.{process_items, item_process}
use mitum_data_blocksign.DocId.{
  DocIdKind, new_doc_id, parse_doc_id, parse_short_type, find_type, kind_of_type, new_kind_doc_id,
}
use mitum_data_blocksign.DocInfo.{id_string}
use mitum_data_blocksign.DocInfo
use mitum_data_blocksign.DocParts.{sign_is_valid}
use mitum_data_blocksign.DocData.{bs_doc, bs_doc_is_valid}
use mitum_data_blocksign.DocData
use mitum_data_blocksign.State.{
  check_exists_state, exists_state, state_key_documents, state_key_document_data,
  check_fact_signs_by_state, check_threshold, sum_weights,
}
use mitum_data_blocksign.Fee.{
  calculate_document_items_fee, calculate_fees, item_fee, add_item_fee, required_at, set_required,
  check_document_owner_enough_balance, check_balance,
}
use mitum_data_blocksign.Fact.{create_item_is_valid}
use mitum_data_blocksign.Process.Writes.{check_account}
use mitum_data_blocksign.Process.Create.{item_pre_process}
use mitum_data_blocksign.Chain.{document_data, document_inventory}
use mitum_data_blocksign.Fee.{CurrencyPool}
use mitum_data_blocksign.Fact.{Fact, CreateDocumentsItem}
use mitum_data_blocksign.Process.Writes.{Writes}
use mitum_data_blocksign.Process.Create.{CreateDocumentsProcessor, pre_process, process}
use mitum_data_blocksign.Process.Create.Accepts.{Accepted, pre_process-Accepted}
use mitum_data_blocksign.Inventory.Lookup.{find}
use mitum_data_blocksign.Process.Create.Passes.{process_passes}
use mitum_data_blocksign.Process.Create.Verdict.{HasType, Checked, item_pre_process_verdict}
use mitum_data_blocksign.Process.Create.{CreateDocumentsItemProcessor}
use mitum_data_blocksign.Process.Create.Freshness.{Fresh}
use mitum_data_blocksign.Process.Create.Results.{Created, process-Created}
use mitum_data_blocksign.Tests.Samples.{
  text_addresses, sample_util, sample_util_laws, Cell, Coins, cells, cells_laws, alice, mcc,
  first_doc, first_data, first_info, first_inventory, accounts_only, get_from, empty_cell,
}

abbrev pool : CurrencyPool
pool = some (λ cid. some (ok (pos 2)))

abbrev item : CreateDocumentsItem Bytes
item = record {
  hint = new_hint "mitum-blocksign-create-documents-item";
  doc = first_doc;
  cid = mcc;
}

abbrev fact : Fact Bytes (CreateDocumentsItem Bytes)
fact = record {
  hint = new_hint "mitum-blocksign-create-documents-operation-fact";
  h = [];
  token = [];
  sender = alice;
  items = item ∷ [];
}

abbrev created : CreateDocumentsProcessor Bytes Cell Coins
created = record {
  dinv = record { doc_infos = [] };
  ndinvs = empty_cell;
  sb = (mcc, record { cid = mcc; left = pos 10; paid = pos 0 }) ∷ [];
  ns =
      record {
        item = item;
        nds = empty_cell;
        doc_info = record first_info { doc_type = "mitum-document-id" };
      }
      ∷ [];
  required = (mcc, pos 2, pos 2) ∷ [];
}

created-ok : pre_process cells pool (get_from accounts_only) fact (alice ∷ []) ≡ ok created
unfolding pre_process get_from bytes_eq for_each map_each ◌+ℤ◌ check_exists_state exists_state
    state_key_documents calculate_document_items_fee calculate_fees item_fee add_item_fee
    required_at set_required check_document_owner_enough_balance check_balance item_pre_process
    create_item_is_valid DocData.is_valid bs_doc_is_valid DocInfo.is_valid sign_is_valid
    DocData.document_id DocInfo.document_id id_string state_key_document_data DocData.accounts
    DocData.info check_account new_doc_id parse_doc_id parse_short_type find_type kind_of_type
    new_kind_doc_id check_fact_signs_by_state check_threshold sum_weights
created-ok = refl

pre_process-Accepted_example : Accepted cells (get_from accounts_only) fact (alice ∷ []) created
pre_process-Accepted_example =
    pre_process-Accepted cells (get_from accounts_only) pool fact (alice ∷ []) created created-ok

abbrev written : Writes Cell Coins
written = record {
  states =
      record empty_cell { value = some (document_data first_doc) }
      ∷ record empty_cell { value = some (document_inventory first_inventory) }
      ∷ [];
  amounts = record { cid = mcc; left = pos 8; paid = pos 2 } ∷ [];
}

written-ok : process cells created ≡ ok written
unfolding process process_items item_process set_state_document_data_value state_document_data_value
    set_state_documents_value DocData.info Inventory.append Inventory.sort info_less
    DocInfo.is_valid id_string Inventory.exists Inventory.exists_in sort_slice insert_by for_each
    charge balance_at bytes_eq ◌+ℤ◌
written-ok = refl

first_info-valid : DocInfo.is_valid first_info ≡ ok tt
unfolding DocInfo.is_valid for_each
first_info-valid = refl

first_doc-info : DocData.info first_doc ≡ first_info
unfolding DocData.info
first_doc-info = refl

process-Created_example : Created cells cells_laws created written
unfolding DocData.info
process-Created_example =
    process-Created cells cells_laws created written (record { named = tt; distinct = tt })
      (first_info-valid, tt) written-ok

all-Fresh : Fresh created.ns created.dinv.doc_infos
unfolding find
all-Fresh = (refl, tt, tt)

process_passes_example :
    (w : Writes Cell Coins) × (process cells created ≡ ok w) × Created cells cells_laws created w
unfolding DocData.info
process_passes_example =
    process_passes cells cells_laws (λ s v. (record s { value = some v }, refl)) created
      (record { named = tt; distinct = tt }) (first_info-valid, tt) all-Fresh

-- An id that ends in no short type.
abbrev odd_id : Bytes
odd_id = codes "1xxx"

abbrev odd_item : CreateDocumentsItem Bytes
odd_item = record item {
  doc = bs_doc (record first_data {
    info = record first_info {
      id = some (record { kind = DocIdKind.bs; hint = new_hint "mitum-document-id"; s = odd_id });
    };
  });
}

odd-valid : create_item_is_valid odd_item ≡ ok tt
unfolding create_item_is_valid DocData.is_valid bs_doc_is_valid DocInfo.is_valid sign_is_valid
    for_each
odd-valid = refl

odd_item-panics : item_pre_process cells (get_from accounts_only) odd_item ≡ panic
unfolding item_pre_process get_from bytes_eq for_each create_item_is_valid DocData.is_valid
    bs_doc_is_valid DocInfo.is_valid sign_is_valid DocData.document_id DocInfo.document_id
    DocData.info id_string state_key_document_data DocData.accounts check_account new_doc_id
    parse_doc_id parse_short_type find_type
odd_item-panics = refl

accounts_only-quiet : (k : Bytes) → get_from accounts_only k ≢ panic
unfolding get_from
accounts_only-quiet k = ground arith

item_pre_process_verdict_example :
    (((opp : CreateDocumentsItemProcessor Bytes Cell) × (item_pre_process cells
            (get_from accounts_only)
            odd_item
          ≡ ok opp))
      ↔ ((documentid : Bytes) × (st : Cell) × Checked cells
            (get_from accounts_only)
            odd_item
            documentid
            st
          × HasType documentid))
    × ((item_pre_process cells (get_from accounts_only) odd_item ≡ panic) ↔ (
        (documentid : Bytes) × (st : Cell) × Checked cells
          (get_from accounts_only)
          odd_item
          documentid
          st
        × ¬ HasType documentid))
item_pre_process_verdict_example =
    item_pre_process_verdict cells (get_from accounts_only) accounts_only-quiet odd_item odd-valid
