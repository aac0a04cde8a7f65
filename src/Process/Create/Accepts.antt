-- ===== src/Process/Create/Accepts.antt =====
-- When `PreProcess` of a creation of documents passes.
use mitum_data_blocksign.Prelude.{
  ℤ, Bytes, Bool, true, false, Option, none, some, List, [], ◌∷◌, map, ◌≡◌, refl, ap, sym, subst,
  All, ok, >>=-eq-ok, >>-ok, fail_if->>-ok, map_err, map_err-ok, for_each, map_each,
}
use mitum_data_blocksign.Error.{reason, wrapped, document_already_registered}
use mitum_data_blocksign.Mitum.{Util, Addresses}
use mitum_data_blocksign.DocId.{DocId, new_doc_id}
use mitum_data_blocksign.DocInfo.{DocInfo}
use mitum_data_blocksign.DocData
use mitum_data_blocksign.Chain.{Chain, GetState}
use mitum_data_blocksign.State.{
  state_key_document_data, state_key_documents, check_exists_state, check_fact_signs_by_state,
}
use mitum_data_blocksign.State.Threshold.{SignedBy, check_fact_signs-SignedBy, check_exists-found}
use mitum_data_blocksign.Fee.{
  CurrencyPool, required_at, balance_at, calculate_document_items_fee,
  check_document_owner_enough_balance,
}
use mitum_data_blocksign.Fee.Balance.{Covered, enough_balance-Covered}
use mitum_data_blocksign.Fact.{Fact, CreateDocumentsItem, create_item_is_valid}
use mitum_data_blocksign.Process.Writes.{check_account, accounts-found}
use mitum_data_blocksign.Process.Create.{
  CreateDocumentsItemProcessor, CreateDocumentsProcessor, prepare_doc_info, item_pre_process,
  sender_inventory, pre_process,
}

module _ {A S P M : Type 0} ⦃a : Addresses A⦄ ⦃u : Util⦄ (c : Chain A S P M) (gs : GetState S) where
  abbrev pub OnChain : Bytes → Type 0
  OnChain key = (st : S) × (gs key ≡ ok (st, true))

  -- The item is valid, its id is well-formed and not registered, its accounts are on the chain, and
  -- the processor holds the state that the document will be written to.
  pub record Ready (item : CreateDocumentsItem A) (opp : CreateDocumentsItemProcessor A S)
      : Type 0 where
    pub valid : create_item_is_valid item ≡ ok tt
    pub documentid : Bytes
    pub named : DocData.document_id item.doc ≡ ok documentid
    pub unregistered : gs (state_key_document_data documentid) ≡ ok (opp.nds, false)
    pub accounts : All (λ x. OnChain (c.state_key_account x)) (DocData.accounts item.doc)
    pub id : DocId
    pub parsed : new_doc_id documentid ≡ some id
    pub kept : opp.item ≡ item

  absent_state :
      (k : Bytes) {s t : S} {found : Bool}
      → gs k ≡ ok (s, found)
      → found ≡ false
      → s ≡ t
      → gs k ≡ ok (t, false)
  absent_state k e f g = cc

  prepare-id :
      (o : Option DocId) (i : DocInfo) → prepare_doc_info o ≡ ok i → (id : DocId) × (o ≡ some id)
  unfolding prepare_doc_info
  prepare-id none i h = cc
  prepare-id (some id) i h = (id, refl)

  -- An item passes only if it is ready.
  pub item_pre_process-Ready :
      (item : CreateDocumentsItem A) (opp : CreateDocumentsItemProcessor A S)
      → item_pre_process c gs item ≡ ok opp
      → Ready item opp
  unfolding item_pre_process
  item_pre_process-Ready item opp h =
      let (v, h1) = (>>-ok (map_err reason (create_item_is_valid item)) _ opp).0 h in
      let (documentid, named, h2) = >>=-eq-ok (DocData.document_id item.doc) _ h1 in
      let ((st, found), state, h3) = >>=-eq-ok (gs (state_key_document_data documentid)) _ h2 in
      let (absent, h4) =
        (fail_if->>-ok found (reason (document_already_registered documentid)) _).0 h3 in
      let (accounts, h5) =
        (>>-ok (for_each (check_account c gs) (DocData.accounts item.doc)) _ opp).0 h4 in
      let (info, prepared, h6) = >>=-eq-ok (prepare_doc_info (new_doc_id documentid)) _ h5 in
      let (id, parsed) = prepare-id (new_doc_id documentid) info prepared in
      let e : ◌≡◌ {A = CreateDocumentsItemProcessor A S}
          (record { item = item; nds = st; doc_info = info }) opp =
        cc in
      record {
        valid = (map_err-ok reason (create_item_is_valid item) tt).0 v;
        documentid = documentid;
        named = named;
        unregistered =
            absent_state (state_key_document_data documentid) state absent (ap (λ r. r.nds) e);
        accounts = accounts-found c gs _ accounts;
        id = id;
        parsed = parsed;
        kept = sym (ap (λ r. r.item) e);
      }

  -- Each item of the fact is ready, in order.
  abbrev pub AllReady :
      List (CreateDocumentsItem A) → List (CreateDocumentsItemProcessor A S) → Type 0
  AllReady [] [] = Unit
  AllReady [] (n ∷ ns) = ⊥
  AllReady (i ∷ items) [] = ⊥
  AllReady (i ∷ items) (n ∷ ns) = Ready i n × AllReady items ns

  map_each-AllReady :
      (items : List (CreateDocumentsItem A)) (ns : List (CreateDocumentsItemProcessor A S))
      → map_each (item_pre_process c gs) items ≡ ok ns
      → AllReady items ns
  unfolding map_each
  map_each-AllReady [] ns h = let e : [] ≡ ns = cc in subst (AllReady []) e tt
  map_each-AllReady (i ∷ items) ns h =
      let (n, first, h1) = >>=-eq-ok (item_pre_process c gs i) _ h in
      let (rest, others, h2) = >>=-eq-ok (map_each (item_pre_process c gs) items) _ h1 in
      let e : n ∷ rest ≡ ns = cc in
      subst (AllReady (i ∷ items)) e
        (item_pre_process-Ready i n first, map_each-AllReady items rest others)

  -- What `PreProcess` of a creation has checked, and what the processor holds.
  pub record Accepted (fact : Fact A (CreateDocumentsItem A)) (signs : List P)
      (opp : CreateDocumentsProcessor A S M) : Type 0 where
    pub sender : OnChain (c.state_key_account fact.sender)
    pub items : AllReady fact.items opp.ns
    pub covered :
        (cid : Bytes) (rq f : ℤ)
        → required_at cid opp.required ≡ some (rq, f)
        → Covered c fact.sender gs cid rq (balance_at c cid opp.sb)
    pub signed : SignedBy c fact.sender signs gs

  -- A creation that `PreProcess` passes has a sender with an account and items that are all ready, in
  -- order: valid, with a well-formed id that is not registered and accounts that are on the chain. The
  -- sender's balance in each required currency covers the amount and is what will be charged, and the
  -- signers are keys of the sender's account and reach its threshold.
  pub pre_process-Accepted :
      (cp : CurrencyPool) (fact : Fact A (CreateDocumentsItem A)) (signs : List P)
      (opp : CreateDocumentsProcessor A S M)
      → pre_process c cp gs fact signs ≡ ok opp
      → Accepted fact signs opp
  unfolding pre_process
  pre_process-Accepted cp fact signs opp h =
      let (sender, h1) =
        (>>-ok (check_exists_state (c.state_key_account fact.sender) gs) _ opp).0 h in
      let ((st, found), state, h2) = >>=-eq-ok (gs (state_key_documents fact.sender)) _ h1 in
      let (dinv, inventory, h3) = >>=-eq-ok (sender_inventory c st found) _ h2 in
      let (required, fees, h4) =
        >>=-eq-ok
          (map_err (λ e. reason (wrapped e))
            (calculate_document_items_fee cp (map (λ it. it.cid) fact.items)))
          _ h3 in
      let (sb, enough, h5) =
        >>=-eq-ok (check_document_owner_enough_balance c fact.sender required gs) _ h4 in
      let (ns, ready, h6) = >>=-eq-ok (map_each (item_pre_process c gs) fact.items) _ h5 in
      let (signed, h7) =
        (>>-ok
            (map_err (λ e. reason (wrapped e)) (check_fact_signs_by_state c fact.sender signs gs)) _
            opp).0
          h6 in
      let e : ◌≡◌ {A = CreateDocumentsProcessor A S M}
          (record { dinv = dinv; ndinvs = st; sb = sb; ns = ns; required = required }) opp =
        cc in
      subst (Accepted fact signs) e (record {
        sender = check_exists-found (c.state_key_account fact.sender) gs sender;
        items = map_each-AllReady fact.items ns ready;
        covered = λ cid rq f. enough_balance-Covered c fact.sender gs required sb cid rq f enough;
        signed = check_fact_signs-SignedBy c fact.sender signs gs ((map_err-ok _ _ tt).0 signed);
      })
