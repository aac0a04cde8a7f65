-- ===== src/Process/Update/Sender.antt =====
-- The part that the sender of a fact has in an update of documents.
use mitum_data_blocksign.Prelude.{
  Bytes, Bool, ◌∙◌, false, not, ◌≡◌, refl, ap, ok, ◌∙◌, >>=-eq-ok, >>-ok, ok-injective,
  fail_if->>-ok, map_err,
}
use mitum_data_blocksign.Error.{
  reason, owner_not_found, no_inventory, document_not_registered, owner_mismatch,
}
use mitum_data_blocksign.Mitum.{Util, Addresses}
use mitum_data_blocksign.DocData
use mitum_data_blocksign.DocData.{DocumentData}
use mitum_data_blocksign.Inventory.{DocumentInventory}
use mitum_data_blocksign.Chain.{Chain, GetState}
use mitum_data_blocksign.State.{
  state_key_document_data, state_key_documents, state_document_data_value,
  set_state_document_data_value, state_documents_value,
}
use mitum_data_blocksign.Fact.{UpdateDocumentsItem, update_item_is_valid}
use mitum_data_blocksign.Process.Update.{UpdateDocumentsItemProcessor, item_pre_process}

module _ {A S P M : Type 0} ⦃a : Addresses A⦄ ⦃u : Util⦄ (c : Chain A S P M) (gs : GetState S) where
  item_pre_process-passes :
      (x : A) (item : UpdateDocumentsItem A) (s ndinvs st nds : S) (found found' found'' : Bool)
      (dinv : DocumentInventory) (documentid : Bytes) (dd : DocumentData A)
      → map_err reason (update_item_is_valid item) ≡ ok tt
      → gs (c.state_key_account (DocData.owner item.doc)) ≡ ok (s, found)
      → not found ≡ false
      → gs (state_key_documents (DocData.owner item.doc)) ≡ ok (ndinvs, found')
      → not found' ≡ false
      → state_documents_value c ndinvs ≡ ok dinv
      → DocData.document_id item.doc ≡ ok documentid
      → gs (state_key_document_data documentid) ≡ ok (st, found'')
      → not found'' ≡ false
      → state_document_data_value c st ≡ ok dd
      → not (a.address_equal (DocData.owner dd) (DocData.owner item.doc)) ≡ false
      → set_state_document_data_value c st item.doc ≡ ok nds
      → item_pre_process c gs x item
        ≡ ok (record { sender = x; item = item; nds = nds; dinv = dinv; ndinvs = ndinvs })
  unfolding item_pre_process
  item_pre_process-passes x item s ndinvs st nds found found' found'' dinv documentid dd v owner
        present inv stocked read named state registered value owned set =
      rw (v, owner, present, inv, stocked, read, named, state, registered, value, owned, set) refl

  -- An item that passes for one sender passes for every other sender, and its processor then holds the
  -- same states: nothing compares the sender with the owner of the document.
  pub item_pre_process-any_sender :
      (x y : A) (item : UpdateDocumentsItem A) (opp : UpdateDocumentsItemProcessor A S)
      → item_pre_process c gs x item ≡ ok opp
      → item_pre_process c gs y item ≡ ok (record opp { sender = y })
  unfolding item_pre_process
  item_pre_process-any_sender x y item opp h =
      let (v, h1) = (>>-ok (map_err reason (update_item_is_valid item)) _ opp).0 h in
      let ((s, found), owner, h2) =
        >>=-eq-ok (gs (c.state_key_account (DocData.owner item.doc))) _ h1 in
      let (present, h3) = (fail_if->>-ok (not found) (reason owner_not_found) _).0 h2 in
      let ((ndinvs, found'), inv, h4) =
        >>=-eq-ok (gs (state_key_documents (DocData.owner item.doc))) _ h3 in
      let (stocked, h5) = (fail_if->>-ok (not found') (reason no_inventory) _).0 h4 in
      let (dinv, read, h6) = >>=-eq-ok (state_documents_value c ndinvs) _ h5 in
      let (documentid, named, h7) = >>=-eq-ok (DocData.document_id item.doc) _ h6 in
      let ((st, found''), state, h8) = >>=-eq-ok (gs (state_key_document_data documentid)) _ h7 in
      let (registered, h9) =
        (fail_if->>-ok (not found'') (reason (document_not_registered documentid)) _).0 h8 in
      let (dd, value, h10) = >>=-eq-ok (state_document_data_value c st) _ h9 in
      let (owned, h11) =
        (fail_if->>-ok (not (a.address_equal (DocData.owner dd) (DocData.owner item.doc)))
            (reason owner_mismatch) _).0
          h10 in
      let (nds, set, h12) = >>=-eq-ok (set_state_document_data_value c st item.doc) _ h11 in
      let e : ◌≡◌ {A = UpdateDocumentsItemProcessor A S}
          (record { sender = x; item = item; nds = nds; dinv = dinv; ndinvs = ndinvs }) opp =
        ok-injective h12 in
      item_pre_process-passes y item s ndinvs st nds found found' found'' dinv documentid dd v owner
        present inv stocked read named state registered value owned set
      ∙ ap (λ (o : UpdateDocumentsItemProcessor A S). ok (record o { sender = y })) e
