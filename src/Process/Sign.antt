-- ===== src/Process/Sign.antt =====
-- document/sign_documents_process.go: `SignDocumentsItemProcessor` and `SignDocumentsProcessor`.
pub mod Accepts
use mitum_data_blocksign.Prelude.{
  Bytes, Bool, not, List, [], ◌∷◌, map, length, ltb, if◌then◌else◌, ok, err, ◌>>=◌, ◌>>◌, fail_if,
  map_err, map_each,
}
use mitum_data_blocksign.Error.{
  Error, reason, wrapped, owner_not_found, no_inventory, document_not_registered,
  not_blocksign_document, owner_mismatch, signer_not_found,
}
use mitum_data_blocksign.Mitum.{Outcome, Validity, Util, Addresses}
use mitum_data_blocksign.DocParts.{DocSign, set_signed}
use mitum_data_blocksign.DocData.{DocumentData, BsDocData, bs_doc}
use mitum_data_blocksign.Inventory.{DocumentInventory}
use mitum_data_blocksign.Inventory
use mitum_data_blocksign.Chain.{Chain, GetState}
use mitum_data_blocksign.State.{
  state_key_document_data, state_key_documents, check_exists_state, state_document_data_value,
  set_state_document_data_value, state_documents_value, check_fact_signs_by_state,
}
use mitum_data_blocksign.Fee.{
  CurrencyPool, Required, calculate_sign_document_items_fee, check_document_owner_enough_balance,
  charge,
}
use mitum_data_blocksign.Fact.{Fact, SignDocumentItem, sign_item_is_valid}
use mitum_data_blocksign.Process.Writes.{Writes}

-- `SignDocumentsItemProcessor`
pub record SignDocumentsItemProcessor (A S : Type 0) : Type 0 where
  pub sender : A
  pub item : SignDocumentItem A
  pub nds : S
  pub dinv : DocumentInventory
  pub ndinvs : S

-- `SignDocumentsProcessor`
pub record SignDocumentsProcessor (A S M : Type 0) : Type 0 where
  pub sb : List (Bytes × M)
  pub ns : List (SignDocumentsItemProcessor A S)
  pub required : Required

-- `dd.(BSDocData)`
unfoldable pub as_bs_doc : {A : Type 0} → DocumentData A → Outcome (BsDocData A)
as_bs_doc (bs_doc d) = ok d
as_bs_doc d = err (reason not_blocksign_document)

-- The loop over the signers: the first whose address is the sender's has signed.
unfoldable pub mark_signed :
    {A : Type 0} ⦃a : Addresses A⦄ → A → List (DocSign A) → Outcome (List (DocSign A))
mark_signed sender [] = err (reason signer_not_found)
mark_signed ⦃a⦄ sender (s ∷ signers) =
    if a.address_equal s.address sender
    then ok (set_signed s ∷ signers)
    else (mark_signed sender signers >>= λ rest. ok (s ∷ rest))

module _ {A S P M : Type 0} ⦃a : Addresses A⦄ ⦃u : Util⦄ (c : Chain A S P M) where
  -- The part of `SignDocumentsItemProcessor.PreProcess` that follows the reading of the document's state
  unfoldable pub sign_state : S → A → A → Outcome S
  sign_state st sender owner = do
    dd ← state_document_data_value c st
    v ← as_bs_doc dd
    fail_if (not (a.address_equal v.creator.address owner)) (reason owner_mismatch)
    signers ← mark_signed sender v.signers
    set_state_document_data_value c st (bs_doc (record v { signers = signers }))

  -- `SignDocumentsItemProcessor.PreProcess`
  unfoldable pub item_pre_process :
      GetState S → A → SignDocumentItem A → Outcome (SignDocumentsItemProcessor A S)
  item_pre_process get_state sender item = do
    sign_item_is_valid item
    (_, owner_found) ← get_state (c.state_key_account item.owner)
    fail_if (not owner_found) (reason owner_not_found)
    (ndinvs, inventory_found) ← get_state (state_key_documents item.owner)
    fail_if (not inventory_found) (reason no_inventory)
    dinv ← state_documents_value c ndinvs
    _ ← Inventory.get dinv item.id
    (st, found) ← get_state (state_key_document_data item.id)
    fail_if (not found) (reason (document_not_registered item.id))
    nds ← sign_state st sender item.owner
    ok (record { sender = sender; item = item; nds = nds; dinv = dinv; ndinvs = ndinvs })

  -- `SignDocumentsProcessor.PreProcess`
  unfoldable pub pre_process :
      CurrencyPool
      → GetState S
      → Fact A (SignDocumentItem A)
      → List P
      → Outcome (SignDocumentsProcessor A S M)
  pre_process cp get_state fact signs = do
    check_exists_state (c.state_key_account fact.sender) get_state
    required ←
        map_err (λ e. reason (wrapped e))
          (calculate_sign_document_items_fee cp (map (λ it. it.cid) fact.items))
    sb ← check_document_owner_enough_balance c fact.sender required get_state
    ns ← map_each (λ it. map_err reason (item_pre_process get_state fact.sender it)) fact.items
    map_err (λ e. reason (wrapped e)) (check_fact_signs_by_state c fact.sender signs get_state)
    ok (record { sb = sb; ns = ns; required = required })

  -- `SignDocumentsProcessor.Process`; `SignDocumentsItemProcessor.Process` returns `nds`.
  unfoldable pub process : SignDocumentsProcessor A S M → Outcome (Writes S M)
  process opp =
      ok (record { states = map (λ n. n.nds) opp.ns; amounts = charge c opp.required opp.sb })
