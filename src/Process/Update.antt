-- ===== src/Process/Update.antt =====
-- document/update_documents_process.go: `UpdateDocumentsItemProcessor` and
-- `UpdateDocumentsProcessor`.
pub mod Accepts
pub mod Sender
use mitum_data_blocksign.Prelude.{
  Bytes, Bool, not, List, map, ok, ◌>>=◌, ◌>>◌, fail_if, map_err, map_each, for_each,
}
use mitum_data_blocksign.Error.{
  Error, reason, wrapped, owner_not_found, no_inventory, document_not_registered, owner_mismatch,
}
use mitum_data_blocksign.Mitum.{Outcome, Validity, Util, Addresses}
use mitum_data_blocksign.DocData.{DocumentData}
use mitum_data_blocksign.DocData
use mitum_data_blocksign.Inventory.{DocumentInventory}
use mitum_data_blocksign.Chain.{Chain, GetState}
use mitum_data_blocksign.State.{
  state_key_document_data, state_key_documents, check_exists_state, state_document_data_value,
  set_state_document_data_value, state_documents_value, check_fact_signs_by_state,
}
use mitum_data_blocksign.Fee.{
  CurrencyPool, Required, calculate_update_document_items_fee, check_document_owner_enough_balance,
  charge,
}
use mitum_data_blocksign.Fact.{Fact, UpdateDocumentsItem, update_item_is_valid}
use mitum_data_blocksign.Process.Writes.{Writes}

-- `UpdateDocumentsItemProcessor`
pub record UpdateDocumentsItemProcessor (A S : Type 0) : Type 0 where
  pub sender : A
  pub item : UpdateDocumentsItem A
  pub nds : S
  pub dinv : DocumentInventory
  pub ndinvs : S

-- `UpdateDocumentsProcessor`
pub record UpdateDocumentsProcessor (A S M : Type 0) : Type 0 where
  pub sb : List (Bytes × M)
  pub ns : List (UpdateDocumentsItemProcessor A S)
  pub required : Required

module _ {A S P M : Type 0} ⦃a : Addresses A⦄ ⦃u : Util⦄ (c : Chain A S P M) where
  -- `UpdateDocumentsItemProcessor.PreProcess`
  unfoldable pub item_pre_process :
      GetState S → A → UpdateDocumentsItem A → Outcome (UpdateDocumentsItemProcessor A S)
  item_pre_process get_state sender item = do
    map_err reason (update_item_is_valid item)
    (_, owner_found) ← get_state (c.state_key_account (DocData.owner item.doc))
    fail_if (not owner_found) (reason owner_not_found)
    (ndinvs, inventory_found) ← get_state (state_key_documents (DocData.owner item.doc))
    fail_if (not inventory_found) (reason no_inventory)
    dinv ← state_documents_value c ndinvs
    documentid ← DocData.document_id item.doc
    (st, found) ← get_state (state_key_document_data documentid)
    fail_if (not found) (reason (document_not_registered documentid))
    dd ← state_document_data_value c st
    fail_if (not (a.address_equal (DocData.owner dd) (DocData.owner item.doc)))
        (reason owner_mismatch)
    nds ← set_state_document_data_value c st item.doc
    ok (record { sender = sender; item = item; nds = nds; dinv = dinv; ndinvs = ndinvs })

  -- `UpdateDocumentsProcessor.PreProcess`
  unfoldable pub pre_process :
      CurrencyPool
      → GetState S
      → Fact A (UpdateDocumentsItem A)
      → List P
      → Outcome (UpdateDocumentsProcessor A S M)
  pre_process cp get_state fact signs = do
    check_exists_state (c.state_key_account fact.sender) get_state
    required ←
        map_err (λ e. reason (wrapped e))
          (calculate_update_document_items_fee cp (map (λ it. it.cid) fact.items))
    sb ← check_document_owner_enough_balance c fact.sender required get_state
    ns ← map_each (item_pre_process get_state fact.sender) fact.items
    map_err wrapped (check_fact_signs_by_state c fact.sender signs get_state)
    ok (record { sb = sb; ns = ns; required = required })

  -- `UpdateDocumentsProcessor.Process`; `UpdateDocumentsItemProcessor.Process` returns `nds`.
  unfoldable pub process : UpdateDocumentsProcessor A S M → Outcome (Writes S M)
  process opp =
      ok (record { states = map (λ n. n.nds) opp.ns; amounts = charge c opp.required opp.sb })
