-- ===== src/Process/Sign/Accepts.antt =====
-- What a signing of documents that passes has checked, and what it writes.
use mitum_data_blocksign.Prelude.{
  Bytes, Bool, true, false, not, some, List, [], ◌∷◌, ◌++◌, map, ◌≡◌, refl, ap, sym, subst, inl,
  inr, Bool-cases, All, ok, >>=-eq-ok, >>-ok, ok-injective, fail_if->>-ok, map_err, map_err-ok,
  map_each, Pairwise, Pairwise-map, map_each-Pairwise, arith,
}
use mitum_data_blocksign.Error.{
  reason, wrapped, owner_not_found, no_inventory, document_not_registered, owner_mismatch,
}
use mitum_data_blocksign.Mitum.{Util, Addresses}
use mitum_data_blocksign.DocParts.{DocSign, set_signed}
use mitum_data_blocksign.DocInfo.{DocInfo}
use mitum_data_blocksign.DocData.{DocumentData, BsDocData, bs_doc}
use mitum_data_blocksign.Inventory.{DocumentInventory}
use mitum_data_blocksign.Inventory
use mitum_data_blocksign.Chain.{Chain, ChainLaws, GetState, document_data, document_inventory}
use mitum_data_blocksign.State.{
  state_key_document_data, state_key_documents, state_document_data_value, state_documents_value,
  check_exists_state, check_fact_signs_by_state,
}
use mitum_data_blocksign.State.Threshold.{SignedBy, check_fact_signs-SignedBy}
use mitum_data_blocksign.State.Values.{
  set_document_data_holds, data_value-held, documents_value-held,
}
use mitum_data_blocksign.Fee.{
  CurrencyPool, calculate_sign_document_items_fee, check_document_owner_enough_balance, charge,
}
use mitum_data_blocksign.Fact.{Fact, SignDocumentItem, sign_item_is_valid}
use mitum_data_blocksign.Process.Writes.{Writes}
use mitum_data_blocksign.Process.Sign.{
  SignDocumentsItemProcessor, SignDocumentsProcessor, as_bs_doc, mark_signed, sign_state,
  item_pre_process, pre_process, process,
}

module _ {A : Type 0} ⦃a : Addresses A⦄ where
  -- `after` is `before` with the first signature of the sender's address marked, and no other change.
  pub record Marked (sender : A) (before after : List (DocSign A)) : Type 0 where
    pub earlier : List (DocSign A)
    pub mine : DocSign A
    pub later : List (DocSign A)
    pub was : before ≡ earlier ++ mine ∷ later
    pub now : after ≡ earlier ++ set_signed mine ∷ later
    pub is_mine : a.address_equal mine.address sender ≡ true
    pub not_mine : All (λ s. a.address_equal s.address sender ≡ false) earlier

  mark_signed-Marked :
      (sender : A) (before after : List (DocSign A))
      → mark_signed sender before ≡ ok after
      → Marked sender before after
  unfolding mark_signed
  mark_signed-Marked sender [] after h = cc
  mark_signed-Marked sender (s ∷ before) after h =
      elim (Bool-cases (a.address_equal s.address sender)) [
        | inl same ↦ record {
          earlier = [];
          mine = s;
          later = before;
          was = refl;
          now = sym (ok-injective (rw same at h));
          is_mine = same;
          not_mine = tt;
        }
        | inr other ↦
            let (rest, others, e) = >>=-eq-ok (mark_signed sender before) _ (rw other at h) in
            let m = mark_signed-Marked sender before rest others in
            record {
              earlier = s ∷ m.earlier;
              mine = m.mine;
              later = m.later;
              was = ap (◌∷◌ s) m.was;
              now = cc (m.now, e);
              is_mine = m.is_mine;
              not_mine = (other, m.not_mine);
            }
      ]

as_bs_doc-is :
    {A : Type 0} (d : DocumentData A) (v : BsDocData A) → as_bs_doc d ≡ ok v → d ≡ bs_doc v
unfolding as_bs_doc
as_bs_doc-is d v h = ground arith

not-false : (b : Bool) → not b ≡ false → b ≡ true
not-false true h = refl
not-false false h = cc

module _ {A S P M : Type 0} ⦃a : Addresses A⦄ ⦃u : Util⦄ (c : Chain A S P M) (laws : ChainLaws c)
    (gs : GetState S) where
  -- The state `t` holds the document of `st` with the sender's signature marked.
  pub record SignsState (sender owner : A) (st t : S) : Type 0 where
    pub old : BsDocData A
    pub held : c.state_value st ≡ some (document_data (bs_doc old))
    pub owned : a.address_equal old.creator.address owner ≡ true
    pub signers : List (DocSign A)
    pub marked : Marked sender old.signers signers
    pub holds : c.state_value t ≡ some (document_data (bs_doc (record old { signers = signers })))

  sign_state-SignsState :
      (sender owner : A) (st t : S)
      → sign_state c st sender owner ≡ ok t
      → SignsState sender owner st t
  unfolding sign_state
  sign_state-SignsState sender owner st t h =
      let (dd, value, h1) = >>=-eq-ok (state_document_data_value c st) _ h in
      let (v, blocksign, h2) = >>=-eq-ok (as_bs_doc dd) _ h1 in
      let (owned, h3) =
        (fail_if->>-ok (not (a.address_equal v.creator.address owner)) (reason owner_mismatch) _).0
          h2 in
      let (signers, mark, h4) = >>=-eq-ok (mark_signed sender v.signers) _ h3 in
      record {
        old = v;
        held =
            subst (λ d. c.state_value st ≡ some (document_data d)) (as_bs_doc-is dd v blocksign)
              (data_value-held c st dd value);
        owned = not-false _ owned;
        signers = signers;
        marked = mark_signed-Marked sender v.signers signers mark;
        holds = set_document_data_holds c laws st (bs_doc (record v { signers = signers })) t h4;
      }

  -- The state `t` takes the place of a document that is on the chain and in the inventory of its
  -- owner, and differs from it in the sender's signature.
  pub record Signs (sender : A) (item : SignDocumentItem A) (t : S) : Type 0 where
    pub valid : sign_item_is_valid item ≡ ok tt
    pub st : S
    pub registered : gs (state_key_document_data item.id) ≡ ok (st, true)
    pub signs : SignsState sender item.owner st t
    pub inventory : DocumentInventory
    pub ndinvs : S
    pub stocked : gs (state_key_documents item.owner) ≡ ok (ndinvs, true)
    pub listed : c.state_value ndinvs ≡ some (document_inventory inventory)
    pub info : DocInfo
    pub contained : Inventory.get inventory item.id ≡ ok info

  found_state :
      (k : Bytes) {s : S} {found : Bool}
      → gs k ≡ ok (s, found)
      → not found ≡ false
      → gs k ≡ ok (s, true)
  found_state k e f = cc (not-false _ f)

  item_pre_process-Signs :
      (sender : A) (item : SignDocumentItem A) (opp : SignDocumentsItemProcessor A S)
      → item_pre_process c gs sender item ≡ ok opp
      → Signs sender item opp.nds
  unfolding item_pre_process
  item_pre_process-Signs sender item opp h =
      let (valid, h1) = (>>-ok (sign_item_is_valid item) _ opp).0 h in
      let ((s, found), owner, h2) = >>=-eq-ok (gs (c.state_key_account item.owner)) _ h1 in
      let (present, h3) = (fail_if->>-ok (not found) (reason owner_not_found) _).0 h2 in
      let ((ndinvs, found'), inv, h4) = >>=-eq-ok (gs (state_key_documents item.owner)) _ h3 in
      let (stocked, h5) = (fail_if->>-ok (not found') (reason no_inventory) _).0 h4 in
      let (dinv, read, h6) = >>=-eq-ok (state_documents_value c ndinvs) _ h5 in
      let (info, contained, h7) = >>=-eq-ok (Inventory.get dinv item.id) _ h6 in
      let ((st, found''), state, h8) = >>=-eq-ok (gs (state_key_document_data item.id)) _ h7 in
      let (registered, h9) =
        (fail_if->>-ok (not found'') (reason (document_not_registered item.id)) _).0 h8 in
      let (nds, set, h10) = >>=-eq-ok (sign_state c st sender item.owner) _ h9 in
      let e : ◌≡◌ {A = SignDocumentsItemProcessor A S}
          (record { sender = sender; item = item; nds = nds; dinv = dinv; ndinvs = ndinvs }) opp =
        ok-injective h10 in
      subst (λ o. Signs sender item o.nds) e
        (record {
          valid = valid;
          st = st;
          registered = found_state (state_key_document_data item.id) state registered;
          signs = sign_state-SignsState sender item.owner st nds set;
          inventory = dinv;
          ndinvs = ndinvs;
          stocked = found_state (state_key_documents item.owner) inv stocked;
          listed = documents_value-held c ndinvs dinv read;
          info = info;
          contained = contained;
        })

  -- What a fact's signing writes, and the signatures that it passed on.
  pub record Signed (fact : Fact A (SignDocumentItem A)) (signs : List P)
      (opp : SignDocumentsProcessor A S M) (w : Writes S M) : Type 0 where
    pub written : process c opp ≡ ok w
    pub replaces : Pairwise (Signs fact.sender) fact.items w.states
    pub amounts : w.amounts ≡ charge c opp.required opp.sb
    pub signed : SignedBy c fact.sender signs gs

  -- After a `PreProcess` that passes, `Process` passes and writes one state for each item, in order,
  -- and the charges. The state holds the registered blocksign document of the item's id, with the
  -- first signature of the sender's address marked as signed and nothing else changed; the creator of
  -- the document is the owner that the item names, whose inventory on the chain has the id. The
  -- signers of the operation are keys of the sender's account on the chain and reach its threshold.
  pub sign-Signed :
      (cp : CurrencyPool) (fact : Fact A (SignDocumentItem A)) (signs : List P)
      (opp : SignDocumentsProcessor A S M)
      → pre_process c cp gs fact signs ≡ ok opp
      → (w : Writes S M) × Signed fact signs opp w
  unfolding pre_process process
  sign-Signed cp fact signs opp h =
      let (sender, h1) =
        (>>-ok (check_exists_state (c.state_key_account fact.sender) gs) _ opp).0 h in
      let (required, fees, h2) =
        >>=-eq-ok
          (map_err (λ e. reason (wrapped e))
            (calculate_sign_document_items_fee cp (map (λ it. it.cid) fact.items)))
          _ h1 in
      let (sb, enough, h3) =
        >>=-eq-ok (check_document_owner_enough_balance c fact.sender required gs) _ h2 in
      let (ns, ready, h4) =
        >>=-eq-ok
          (map_each (λ it. map_err reason (item_pre_process c gs fact.sender it)) fact.items) _
          h3 in
      let (signed, h5) =
        (>>-ok
            (map_err (λ e. reason (wrapped e)) (check_fact_signs_by_state c fact.sender signs gs)) _
            opp).0
          h4 in
      let e : ◌≡◌ {A = SignDocumentsProcessor A S M}
          (record { sb = sb; ns = ns; required = required }) opp =
        ok-injective h5 in
      let each =
        map_each-Pairwise (λ i n. Signs fact.sender i n.nds)
          (λ it. map_err reason (item_pre_process c gs fact.sender it))
          (λ i n q.
            item_pre_process-Signs fact.sender i n
              ((map_err-ok reason (item_pre_process c gs fact.sender i) n).0 q))
          fact.items ns ready in
      subst (λ o. (w : Writes S M) × Signed fact signs o w) e
        (
          record { states = map (λ n. n.nds) ns; amounts = charge c required sb },
          record {
            written = refl;
            replaces =
                Pairwise-map (λ i n. Signs fact.sender i n.nds) (Signs fact.sender) (λ n. n.nds)
                  (λ i n r. r) fact.items ns each;
            amounts = refl;
            signed =
                check_fact_signs-SignedBy c fact.sender signs gs ((map_err-ok _ _ tt).0 signed);
          },
        )
