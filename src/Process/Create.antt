-- ===== src/Process/Create.antt =====
-- document/create_documents_process.go: `CreateDocumentsItemProcessor` and
-- `CreateDocumentsProcessor`. A processor is the value that `PreProcess` fills in.
pub mod Freshness
pub mod Accepts
pub mod Results
pub mod Passes
pub mod Verdict
use mitum_data_blocksign.Prelude.{
  Bytes, Bool, true, not, Option, none, some, List, [], ◌∷◌, ◌++◌, map, if◌then◌else◌, ok, panic,
  ◌>>=◌, ◌>>◌, fail_if, map_err, for_each, map_each,
}
use mitum_data_blocksign.Error.{Error, reason, wrapped, document_already_registered}
use mitum_data_blocksign.Mitum.{Outcome, Validity, Hint, new_hint, Util, Addresses}
use mitum_data_blocksign.DocId.{DocId, new_doc_id}
use mitum_data_blocksign.DocInfo.{DocInfo, doc_info_type}
use mitum_data_blocksign.DocData.{DocumentData}
use mitum_data_blocksign.DocData
use mitum_data_blocksign.Inventory.{DocumentInventory, new_document_inventory}
use mitum_data_blocksign.Inventory
use mitum_data_blocksign.Chain.{Chain, GetState}
use mitum_data_blocksign.State.{
  state_key_document_data, state_key_documents, check_exists_state, state_document_data_value,
  set_state_document_data_value, state_documents_value, set_state_documents_value,
  check_fact_signs_by_state,
}
use mitum_data_blocksign.Fee.{
  CurrencyPool, Required, calculate_document_items_fee, check_document_owner_enough_balance, charge,
}
use mitum_data_blocksign.Fact.{Fact, CreateDocumentsItem, create_item_is_valid}
use mitum_data_blocksign.Process.Writes.{Writes, check_account}

-- `CreateDocumentsItemProcessor`
pub record CreateDocumentsItemProcessor (A S : Type 0) : Type 0 where
  pub item : CreateDocumentsItem A
  pub nds : S
  pub doc_info : DocInfo

-- `CreateDocumentsProcessor`
pub record CreateDocumentsProcessor (A S M : Type 0) : Type 0 where
  pub dinv : DocumentInventory
  pub ndinvs : S
  pub sb : List (Bytes × M)
  pub ns : List (CreateDocumentsItemProcessor A S)
  pub required : Required

-- The `DocInfo` literal of `PreProcess`: `id.Hint()` of a nil id panics.
prepare_doc_info : Option DocId → Outcome DocInfo
prepare_doc_info none = panic
prepare_doc_info (some id) =
    ok (record { hint = new_hint doc_info_type; id = some id; doc_type = id.hint.ty })

module _ {A S P M : Type 0} ⦃a : Addresses A⦄ ⦃u : Util⦄ (c : Chain A S P M) where
  -- `CreateDocumentsItemProcessor.PreProcess`
  unfoldable pub item_pre_process :
      GetState S → CreateDocumentsItem A → Outcome (CreateDocumentsItemProcessor A S)
  unfolding prepare_doc_info
  item_pre_process get_state item = do
    map_err reason (create_item_is_valid item)
    documentid ← DocData.document_id item.doc
    (st, found) ← get_state (state_key_document_data documentid)
    fail_if found (reason (document_already_registered documentid))
    for_each (check_account c get_state) (DocData.accounts item.doc)
    doc_info ← prepare_doc_info (new_doc_id documentid)
    ok (record { item = item; nds = st; doc_info = doc_info })

  -- `CreateDocumentsItemProcessor.Process`
  unfoldable pub item_process : CreateDocumentsItemProcessor A S → Outcome S
  item_process opp = set_state_document_data_value c opp.nds opp.item.doc

  -- The inventory of the sender, empty where there is none yet
  sender_inventory : S → Bool → Outcome DocumentInventory
  sender_inventory st found =
      if found then state_documents_value c st else ok (new_document_inventory [])

  -- `CreateDocumentsProcessor.PreProcess`; `signs` are the signers of the operation's fact signs.
  unfoldable pub pre_process :
      CurrencyPool
      → GetState S
      → Fact A (CreateDocumentsItem A)
      → List P
      → Outcome (CreateDocumentsProcessor A S M)
  unfolding sender_inventory
  pre_process cp get_state fact signs = do
    check_exists_state (c.state_key_account fact.sender) get_state
    (st, found) ← get_state (state_key_documents fact.sender)
    dinv ← sender_inventory st found
    required ←
        map_err (λ e. reason (wrapped e))
          (calculate_document_items_fee cp (map (λ it. it.cid) fact.items))
    sb ← check_document_owner_enough_balance c fact.sender required get_state
    ns ← map_each (item_pre_process get_state) fact.items
    map_err (λ e. reason (wrapped e)) (check_fact_signs_by_state c fact.sender signs get_state)
    ok (record { dinv = dinv; ndinvs = st; sb = sb; ns = ns; required = required })

  -- The loop of `Process` over the items
  unfoldable pub process_items :
      List (CreateDocumentsItemProcessor A S)
      → DocumentInventory
      → Outcome (List S × DocumentInventory)
  process_items [] dinv = ok ([], dinv)
  process_items (n ∷ ns) dinv = do
    s ← map_err (λ e. reason (wrapped e)) (item_process n)
    doc ← state_document_data_value c s
    dinv' ← Inventory.append dinv (DocData.info doc)
    (sts, final) ← process_items ns dinv'
    ok (s ∷ sts, final)

  -- `CreateDocumentsProcessor.Process`
  unfoldable pub process : CreateDocumentsProcessor A S M → Outcome (Writes S M)
  process opp = do
    (sts, dinv) ← process_items opp.ns opp.dinv
    sorted ← Inventory.sort dinv true
    dinvs ← set_state_documents_value c opp.ndinvs sorted
    ok (record { states = sts ++ dinvs ∷ []; amounts = charge c opp.required opp.sb })
