-- ===== src/Process/Update/Accepts.antt =====
-- What an update of documents that passes has checked, and what it writes.
use mitum_data_blocksign.Prelude.{
  Bytes, Bool, true, false, not, some, List, map, ◌≡◌, refl, subst, ok, >>=-eq-ok, ok-injective,
  >>-ok, fail_if->>-ok, map_err, map_err-ok, map_each, Pairwise, Pairwise-map, map_each-Pairwise,
}
use mitum_data_blocksign.Error.{
  reason, wrapped, owner_not_found, no_inventory, document_not_registered, owner_mismatch,
}
use mitum_data_blocksign.Mitum.{Util, Addresses}
use mitum_data_blocksign.DocData.{DocumentData}
use mitum_data_blocksign.DocData
use mitum_data_blocksign.Inventory.{DocumentInventory}
use mitum_data_blocksign.Chain.{Chain, ChainLaws, GetState, document_data, document_inventory}
use mitum_data_blocksign.State.{
  state_key_document_data, state_key_documents, state_document_data_value,
  set_state_document_data_value, state_documents_value, check_exists_state,
  check_fact_signs_by_state,
}
use mitum_data_blocksign.State.Threshold.{SignedBy, check_fact_signs-SignedBy}
use mitum_data_blocksign.State.Values.{
  set_document_data_holds, data_value-held, documents_value-held,
}
use mitum_data_blocksign.Fee.{
  CurrencyPool, calculate_update_document_items_fee, check_document_owner_enough_balance, charge,
}
use mitum_data_blocksign.Fact.{Fact, UpdateDocumentsItem, update_item_is_valid}
use mitum_data_blocksign.Process.Writes.{Writes}
use mitum_data_blocksign.Process.Update.{
  UpdateDocumentsItemProcessor, UpdateDocumentsProcessor, item_pre_process, pre_process, process,
}

module _ {A S P M : Type 0} ⦃a : Addresses A⦄ ⦃u : Util⦄ (c : Chain A S P M) (laws : ChainLaws c)
    (gs : GetState S) where
  -- The state `t` takes the place of a document that is on the chain and has the owner of the item's
  -- document, who has an account and an inventory; it holds the item's document.
  pub record Replaces (item : UpdateDocumentsItem A) (t : S) : Type 0 where
    pub valid : update_item_is_valid item ≡ ok tt
    pub documentid : Bytes
    pub named : DocData.document_id item.doc ≡ ok documentid
    pub st : S
    pub registered : gs (state_key_document_data documentid) ≡ ok (st, true)
    pub old : DocumentData A
    pub held : c.state_value st ≡ some (document_data old)
    pub owned : a.address_equal (DocData.owner old) (DocData.owner item.doc) ≡ true
    pub account : (s : S) × (gs (c.state_key_account (DocData.owner item.doc)) ≡ ok (s, true))
    pub inventory : DocumentInventory
    pub ndinvs : S
    pub stocked : gs (state_key_documents (DocData.owner item.doc)) ≡ ok (ndinvs, true)
    pub listed : c.state_value ndinvs ≡ some (document_inventory inventory)
    pub holds : c.state_value t ≡ some (document_data item.doc)

  not-false : (b : Bool) → not b ≡ false → b ≡ true
  not-false true h = refl
  not-false false h = cc

  found_state :
      (k : Bytes) {s : S} {found : Bool}
      → gs k ≡ ok (s, found)
      → not found ≡ false
      → gs k ≡ ok (s, true)
  found_state k e f = cc (not-false _ f)

  item_pre_process-Replaces :
      (sender : A) (item : UpdateDocumentsItem A) (opp : UpdateDocumentsItemProcessor A S)
      → item_pre_process c gs sender item ≡ ok opp
      → Replaces item opp.nds
  unfolding item_pre_process
  item_pre_process-Replaces sender item opp h =
      let (v, h1) = (>>-ok (map_err reason (update_item_is_valid item)) _ opp).0 h in
      let ((s, found), owner, h2) =
        >>=-eq-ok (gs (c.state_key_account (DocData.owner item.doc))) _ h1 in
      let (present, h3) = (fail_if->>-ok (not found) (reason owner_not_found) _).0 h2 in
      let ((ndinvs, found'), inv, h4) =
        >>=-eq-ok (gs (state_key_documents (DocData.owner item.doc))) _ h3 in
      let (stocked, h5) = (fail_if->>-ok (not found') (reason no_inventory) _).0 h4 in
      let (dinv, read, h6) = >>=-eq-ok (state_documents_value c ndinvs) _ h5 in
      let (documentid, named, h7) = >>=-eq-ok (DocData.document_id item.doc) _ h6 in
      let ((st, found''), state, h8) = >>=-eq-ok (gs (state_key_document_data documentid)) _ h7 in
      let (registered, h9) =
        (fail_if->>-ok (not found'') (reason (document_not_registered documentid)) _).0 h8 in
      let (dd, value, h10) = >>=-eq-ok (state_document_data_value c st) _ h9 in
      let (owned, h11) =
        (fail_if->>-ok (not (a.address_equal (DocData.owner dd) (DocData.owner item.doc)))
            (reason owner_mismatch) _).0
          h10 in
      let (nds, set, h12) = >>=-eq-ok (set_state_document_data_value c st item.doc) _ h11 in
      let e : ◌≡◌ {A = UpdateDocumentsItemProcessor A S}
          (record { sender = sender; item = item; nds = nds; dinv = dinv; ndinvs = ndinvs }) opp =
        ok-injective h12 in
      subst (λ o. Replaces item o.nds) e
        (record {
          valid = (map_err-ok reason (update_item_is_valid item) tt).0 v;
          documentid = documentid;
          named = named;
          st = st;
          registered = found_state (state_key_document_data documentid) state registered;
          old = dd;
          held = data_value-held c st dd value;
          owned = not-false _ owned;
          account = (s, found_state (c.state_key_account (DocData.owner item.doc)) owner present);
          inventory = dinv;
          ndinvs = ndinvs;
          stocked = found_state (state_key_documents (DocData.owner item.doc)) inv stocked;
          listed = documents_value-held c ndinvs dinv read;
          holds = set_document_data_holds c laws st item.doc nds set;
        })

  -- What a fact's update writes, and the signatures that it passed on.
  pub record Updated (fact : Fact A (UpdateDocumentsItem A)) (signs : List P)
      (opp : UpdateDocumentsProcessor A S M) (w : Writes S M) : Type 0 where
    pub written : process c opp ≡ ok w
    pub replaces : Pairwise Replaces fact.items w.states
    pub amounts : w.amounts ≡ charge c opp.required opp.sb
    pub signed : SignedBy c fact.sender signs gs

  -- After a `PreProcess` that passes, `Process` passes and writes one state for each item, in order,
  -- and the charges. The state holds the item's document, and replaces a registered document of the
  -- same id, whose owner is the owner that the item's document names; that owner has an account and
  -- an inventory. The signers of the operation are keys of the sender's account on the chain and
  -- reach its threshold.
  pub update-Updated :
      (cp : CurrencyPool) (fact : Fact A (UpdateDocumentsItem A)) (signs : List P)
      (opp : UpdateDocumentsProcessor A S M)
      → pre_process c cp gs fact signs ≡ ok opp
      → (w : Writes S M) × Updated fact signs opp w
  unfolding pre_process process
  update-Updated cp fact signs opp h =
      let (sender, h1) =
        (>>-ok (check_exists_state (c.state_key_account fact.sender) gs) _ opp).0 h in
      let (required, fees, h2) =
        >>=-eq-ok
          (map_err (λ e. reason (wrapped e))
            (calculate_update_document_items_fee cp (map (λ it. it.cid) fact.items)))
          _ h1 in
      let (sb, enough, h3) =
        >>=-eq-ok (check_document_owner_enough_balance c fact.sender required gs) _ h2 in
      let (ns, ready, h4) =
        >>=-eq-ok (map_each (item_pre_process c gs fact.sender) fact.items) _ h3 in
      let (signed, h5) =
        (>>-ok (map_err wrapped (check_fact_signs_by_state c fact.sender signs gs)) _ opp).0 h4 in
      let e : ◌≡◌ {A = UpdateDocumentsProcessor A S M}
          (record { sb = sb; ns = ns; required = required }) opp =
        ok-injective h5 in
      let each =
        map_each-Pairwise (λ i n. Replaces i n.nds) (item_pre_process c gs fact.sender)
          (item_pre_process-Replaces fact.sender) fact.items ns ready in
      subst (λ o. (w : Writes S M) × Updated fact signs o w) e
        (
          record { states = map (λ n. n.nds) ns; amounts = charge c required sb },
          record {
            written = refl;
            replaces =
                Pairwise-map (λ i n. Replaces i n.nds) Replaces (λ n. n.nds) (λ i n r. r) fact.items
                  ns each;
            amounts = refl;
            signed =
                check_fact_signs-SignedBy c fact.sender signs gs ((map_err-ok _ _ tt).0 signed);
          },
        )
