-- ===== src/Tests/Sessions.antt =====
-- A session over a block with an operation and three states.
use mitum_data_blocksign.Prelude.{
  pos, negsuc, Bytes, codes, bytes_eq, has_suffix, length, true, false, Option, none, some, [], ◌∷◌,
  ok, ◌≡◌, refl,
}
use mitum_data_blocksign.DocData
use mitum_data_blocksign.DocData.{accounts, info}
use mitum_data_blocksign.DocInfo
use mitum_data_blocksign.DocInfo.{id_string}
use mitum_data_blocksign.Chain.{Value}
use mitum_data_blocksign.State.{
  as_document_data, is_state_document_data_key, is_state_documents_key, state_document_data_value,
}
use mitum_data_blocksign.Digest.Docs.{
  Blocks, Doc, new_operation_doc, fact_addresses, new_account_value, new_account_doc,
  new_document_doc,
}
use mitum_data_blocksign.Digest.Database.{Heights}
use mitum_data_blocksign.Digest.Session.{
  BlockSession, no_models, prepare, prepare_operations, prepare_operations_tree, prepare_accounts,
  put_nodes, operation_model, operation_models_from, found_model, handle_states, handle_state,
  handle_account_state, handle_document_data_state, handle_documents_state,
}
use mitum_data_blocksign.Digest.Session.Commit.{Inserts}
use mitum_data_blocksign.Digest.Session.Routing.{prepare-Inserts}
use mitum_data_blocksign.Tests.Samples.{
  text_addresses, Cell, cells, account_of, empty_cell, first_doc, first_inventory, alice, from_ok,
}
use mitum_data_blocksign.Tests.Store.{Store, store_mongo}

abbrev key_of_value : Option (Value Bytes) → Bytes
key_of_value none = codes "al:account"
key_of_value (some (Value.document_data d)) = codes "1sdi:DocumentData"
key_of_value (some (Value.document_inventory d)) = codes "al:Documents"
key_of_value (some Value.other) = codes "al:other"

-- An operation is its fact's hash.
abbrev sample_blocks : Blocks Bytes Cell Bytes
sample_blocks = record {
  fact_hash = λ o. o;
  key_hash = λ k. k;
  addresses = λ o. some (ok (alice ∷ []));
  state_key = λ s. key_of_value s.value;
  state_height = λ s. pos 2;
  state_previous_height = λ s. pos 1;
  is_state_account_key = λ k. has_suffix k (codes ":account");
  is_state_balance_key = λ k. has_suffix k (codes ":balance");
  load_state_account_value = λ s. ok (record { address = alice; keys = none });
  state_balance_currency = λ s. ok (codes "MCC");
  operation_base_doc = λ o. ok tt;
  account_base_doc = λ x. ok tt;
  state_base_doc = λ s. ok tt;
  document_base_doc = λ d. ok tt;
}

abbrev Docs : Type 0
Docs = Doc Bytes Cell Bytes

abbrev sample_session : BlockSession (Store Docs) Cell Bytes Docs
sample_session = record {
  block = record {
    height = pos 2;
    confirmed_at = pos 0;
    operations_tree = record { key = codes "op"; in_state = true; reason = none } ∷ [];
    operations = codes "op" ∷ [];
    states =
        account_of alice
        ∷ record empty_cell { value = some (Value.document_data first_doc) }
        ∷ record empty_cell { value = some (Value.document_inventory first_inventory) }
        ∷ [];
  };
  st = record {
    database = record { rows = λ c. []; info = none };
    readonly = false;
    last_block = negsuc 1;
  };
  ops_tree_nodes = [];
  operation_models = [];
  state_models = no_models;
}

abbrev no_heights : Heights
no_heights = record { nil_height = negsuc 1; pre_genesis_height = negsuc 0 }

prepared : BlockSession (Store Docs) Cell Bytes Docs
prepared =
    from_ok sample_session
      (prepare cells sample_blocks (store_mongo (λ k x. none)) no_heights sample_session)

prepare_passes :
    prepare cells sample_blocks (store_mongo (λ k x. none)) no_heights sample_session ≡ ok prepared
unfolding prepared prepare prepare_operations prepare_operations_tree prepare_accounts put_nodes
    operation_model operation_models_from found_model handle_states handle_state
    handle_account_state handle_document_data_state handle_documents_state bytes_eq has_suffix
    is_state_document_data_key is_state_documents_key state_document_data_value as_document_data
    new_operation_doc fact_addresses new_account_value new_account_doc new_document_doc accounts
    DocData.owner DocData.document_id DocInfo.document_id info id_string
prepare_passes = refl

prepare-Inserts_example :
    Inserts prepared
    × (length prepared.operation_models ≡ 1)
    × (length prepared.state_models.account_models ≡ 1)
    × (length prepared.state_models.balance_models ≡ 0)
    × (length prepared.state_models.document_models ≡ 1)
    × (length prepared.state_models.documents_models ≡ 1)
    × (length prepared.state_models.document_list ≡ 1)
unfolding bytes_eq has_suffix is_state_document_data_key is_state_documents_key
prepare-Inserts_example =
    prepare-Inserts cells sample_blocks (store_mongo (λ k x. none)) no_heights sample_session
      prepared prepare_passes
