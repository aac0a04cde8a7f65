-- ===== src/Error.antt =====
-- The errors that the document package returns, one constructor for each place that makes one, with
-- the wrappers of mitum's packages around them.
use mitum_data_blocksign.Prelude.{Bytes}
use Prim.Native.String.{String}

pub data Error : Type 0 where
  -- `operation.NewBaseReasonError` and `NewBaseReasonErrorFromError`: a refusal of the operation.
  reason : Error → Error
  -- `isvalid.InvalidError` and `errors.Wrap` around another error.
  wrapped : Error → Error
  -- An error of code outside the repository.
  external : Bytes → Error
  -- document/document_id.go
  invalid_doc_id invalid_short_type wrong_short_type : Error
  -- document/document.go, document/document_data.go
  doc_id_empty doc_type_empty doc_type_mismatch over_max_manifest empty_file_hash : Error
  -- document/document_inventory.go
  document_not_in_inventory document_already_in_inventory : Bytes → Error
  -- document/state.go
  document_data_not_found inventory_not_found wrong_value_type : Error
  state_does_not_exist : Bytes → Error
  named_state_does_not_exist : String → Error
  -- document/keys.go
  unknown_key not_passed_threshold : Error
  -- facts
  empty_token empty_items items_over_max wrong_fact_hash : Error
  duplicated_document : Bytes → Error
  -- processors
  unknown_currency insufficient_balance not_enough_values : Error
  document_already_registered document_not_registered : Bytes → Error
  account_not_found owner_not_found no_inventory owner_mismatch : Error
  not_blocksign_document signer_not_found : Error
  -- document/operation_processor.go
  one_sender_per_proposal duplicated_currency new_address_processed needs_processor : Error
  failed_to_get_addresses : Error
  -- digest
  invalid_offset readonly_mode not_account_state offset_not_over_nil : Error
  not_in_operations_tree : Bytes → Error
  not_inserted : String → Error
  -- the encoded forms: a field of another type, a value of another type
  wrong_tree wrong_hinted : Error
