-- ===== src/Process/Create/Results.antt =====
-- What `Process` of a creation of documents writes.
use mitum_data_blocksign.Prelude.{
  Bytes, bytes_eq, true, Option, some, List, [], ◌∷◌, ◌++◌, map, ◌≡◌, refl, ap, sym, subst, ◌∙◌,
  All, All-map, none, ok, >>=-eq-ok, map_err, map_err-ok, if◌then◌else◌, inl, inr, IsSorted, by_key,
}
use mitum_data_blocksign.Error.{reason, wrapped}
use mitum_data_blocksign.Mitum.{Util, Addresses}
use mitum_data_blocksign.DocInfo.{DocInfo}
use mitum_data_blocksign.DocInfo
use mitum_data_blocksign.DocData.{DocumentData}
use mitum_data_blocksign.DocData
use mitum_data_blocksign.DocData.Checks.{DocInfo-valid}
use mitum_data_blocksign.Inventory.{DocumentInventory, id_text}
use mitum_data_blocksign.Inventory
use mitum_data_blocksign.Inventory.Lookup.{Named-some, WellFormed, find}
use mitum_data_blocksign.Inventory.Changes.{Appended, append-cases, sort-Sorted}
use mitum_data_blocksign.Chain.{Chain, ChainLaws, document_data, document_inventory}
use mitum_data_blocksign.State.{state_document_data_value, set_state_documents_value}
use mitum_data_blocksign.State.Values.{
  set_document_data_holds, set_documents_holds, data_value-holds,
}
use mitum_data_blocksign.Fee.{charge}
use mitum_data_blocksign.Process.Writes.{Writes}
use mitum_data_blocksign.Process.Create.Freshness.{
  text_of, Fresh, Fresh-before, kept-Gains, own-Gains,
}
use mitum_data_blocksign.Process.Create.{
  CreateDocumentsItemProcessor, CreateDocumentsProcessor, item_process, process_items, process,
}

-- The map after the infos are added one by one.
pub gained : Bytes → List DocInfo → Option DocInfo → Option DocInfo
gained q [] o = o
gained q (d ∷ ds) o = gained q ds (if bytes_eq (id_text d) q then some d else o)

module _ {A S P M : Type 0} ⦃a : Addresses A⦄ ⦃u : Util⦄ (c : Chain A S P M)
    (laws : ChainLaws c) where
  abbrev pub infos : List (CreateDocumentsItemProcessor A S) → List DocInfo
  infos = map (λ n. DocData.info n.item.doc)

  -- Each state holds the document of its item, in order.
  abbrev pub HoldDocuments : List (CreateDocumentsItemProcessor A S) → List S → Type 0
  HoldDocuments [] [] = Unit
  HoldDocuments [] (s ∷ sts) = ⊥
  HoldDocuments (n ∷ ns) [] = ⊥
  HoldDocuments (n ∷ ns) (s ∷ sts) =
      (c.state_value s ≡ some (document_data n.item.doc)) × HoldDocuments ns sts

  record Extends (ns : List (CreateDocumentsItemProcessor A S)) (dinv final : DocumentInventory)
      (sts : List S) : Type 0 where
    formed : WellFormed final
    holds : HoldDocuments ns sts
    fresh : Fresh ns dinv.doc_infos
    kept :
        (q : Bytes) (old : DocInfo)
        → find q dinv.doc_infos ≡ some old
        → find q final.doc_infos ≡ some old
    listed : All (λ n. find (text_of n) final.doc_infos ≡ some (DocData.info n.item.doc)) ns
    finds : (q : Bytes) → find q final.doc_infos ≡ gained q (infos ns) (find q dinv.doc_infos)

  append-ok :
      (dinv b : DocumentInventory) (d : DocInfo)
      → WellFormed dinv
      → DocInfo.is_valid d ≡ ok tt
      → Inventory.append dinv d ≡ ok b
      → (find (id_text d) dinv.doc_infos ≡ none) × Appended dinv d b
  append-ok dinv b d w v h =
      let (x, e, _) = DocInfo-valid d v in
      elim (append-cases dinv d w v (Named-some d x e)) [
        | inl (old, _, refused) ↦ cc
        | inr (b', fresh, made, appended) ↦
            let same : b' ≡ b = cc in (fresh, subst (Appended dinv d) same appended)
      ]

  -- One round of the loop.
  Extends-step :
      (n : CreateDocumentsItemProcessor A S) (ns : List (CreateDocumentsItemProcessor A S))
      (dinv dinv' final : DocumentInventory) (s : S) (sts : List S)
      → WellFormed dinv
      → DocInfo.is_valid (DocData.info n.item.doc) ≡ ok tt
      → c.state_value s ≡ some (document_data n.item.doc)
      → Inventory.append dinv (DocData.info n.item.doc) ≡ ok dinv'
      → (WellFormed dinv' → Extends ns dinv' final sts)
      → Extends (n ∷ ns) dinv final (s ∷ sts)
  unfolding gained
  Extends-step n ns dinv dinv' final s sts w v held added later =
      let d = DocData.info n.item.doc in
      let (absent, appended) = append-ok dinv dinv' d w v added in
      let rest = later appended.formed in
      let (apart, before) =
        Fresh-before ns d dinv.doc_infos dinv'.doc_infos appended.gains rest.fresh in
      record {
        formed = rest.formed;
        holds = (held, rest.holds);
        fresh = (absent, apart, before);
        kept = λ q old e.
            rest.kept q old
              (kept-Gains d dinv.doc_infos dinv'.doc_infos appended.gains absent q old e);
        listed = (
          rest.kept (id_text d) d (own-Gains d dinv.doc_infos dinv'.doc_infos appended.gains),
          rest.listed,
        );
        finds = λ q. rest.finds q ∙ ap (gained q (infos ns)) (appended.gains q);
      }

  process_items-Extends :
      (ns : List (CreateDocumentsItemProcessor A S)) (dinv final : DocumentInventory) (sts : List S)
      → WellFormed dinv
      → All (λ n. DocInfo.is_valid (DocData.info n.item.doc) ≡ ok tt) ns
      → process_items c ns dinv ≡ ok (sts, final)
      → Extends ns dinv final sts
  unfolding process_items gained item_process
  process_items-Extends [] dinv final sts w v h =
      let e : ◌≡◌ {A = List S × DocumentInventory} ([], dinv) (sts, final) = cc in
      subst (λ r. Extends [] dinv r.1 r.0) e
        (record {
          formed = w;
          holds = tt;
          fresh = tt;
          kept = λ q old k. k;
          listed = tt;
          finds = λ q. refl;
        })
  process_items-Extends (n ∷ ns) dinv final sts w v h =
      let (s, set, h1) = >>=-eq-ok (map_err (λ e. reason (wrapped e)) (item_process c n)) _ h in
      let holds =
        set_document_data_holds c laws n.nds n.item.doc s
          ((map_err-ok _ (item_process c n) s).0 set) in
      let (doc, read, h2) = >>=-eq-ok (state_document_data_value c s) _ h1 in
      let same : doc ≡ n.item.doc = cc (data_value-holds c s n.item.doc holds) in
      let (dinv', added, h3) = >>=-eq-ok (Inventory.append dinv (DocData.info doc)) _ h2 in
      let ((sts', final'), rest, h4) = >>=-eq-ok (process_items c ns dinv') _ h3 in
      let e : ◌≡◌ {A = List S × DocumentInventory} (s ∷ sts', final') (sts, final) = cc in
      subst (λ r. Extends (n ∷ ns) dinv r.1 r.0) e
        (Extends-step n ns dinv dinv' final' s sts' w v.0 holds
          (subst (λ d. Inventory.append dinv (DocData.info d) ≡ ok dinv') same added)
          (λ formed. process_items-Extends ns dinv' final' sts' formed v.1 rest))

  -- What a creation writes: the documents, then the inventory, then the sender's balances.
  pub record Created (opp : CreateDocumentsProcessor A S M) (w : Writes S M) : Type 0 where
    pub documents : List S
    pub inventory : DocumentInventory
    pub inventory_state : S
    pub states : w.states ≡ documents ++ inventory_state ∷ []
    pub holds : HoldDocuments opp.ns documents
    pub holds_inventory : c.state_value inventory_state ≡ some (document_inventory inventory)
    pub formed : WellFormed inventory
    pub ordered : IsSorted (by_key id_text) inventory.doc_infos
    pub fresh : Fresh opp.ns opp.dinv.doc_infos
    pub kept :
        (q : Bytes) (old : DocInfo)
        → find q opp.dinv.doc_infos ≡ some old
        → find q inventory.doc_infos ≡ some old
    pub listed :
        All (λ n. find (text_of n) inventory.doc_infos ≡ some (DocData.info n.item.doc)) opp.ns
    pub finds :
        (q : Bytes)
        → find q inventory.doc_infos ≡ gained q (infos opp.ns) (find q opp.dinv.doc_infos)
    pub amounts : w.amounts ≡ charge c opp.required opp.sb

  -- Where the sender's inventory is well-formed and the items' infos are valid, a creation that
  -- passes writes a state for each item, which holds its document, and then the inventory: it is
  -- well-formed, in the order of the ids, holds under each id what it held before, and the info of
  -- each new document under its own id, and nothing else. No new id was listed before, and no two of
  -- them are the same. Last it charges each required currency.
  pub process-Created :
      (opp : CreateDocumentsProcessor A S M) (w : Writes S M)
      → WellFormed opp.dinv
      → All (λ n. DocInfo.is_valid (DocData.info n.item.doc) ≡ ok tt) opp.ns
      → process c opp ≡ ok w
      → Created opp w
  unfolding process
  process-Created opp w formed valid h =
      let ((sts, dinv), items, h1) = >>=-eq-ok (process_items c opp.ns opp.dinv) _ h in
      let ex = process_items-Extends opp.ns opp.dinv dinv sts formed valid items in
      let (sorted, sort, h2) = >>=-eq-ok (Inventory.sort dinv true) _ h1 in
      let (b, made, order) = sort-Sorted dinv ex.formed in
      let same : b ≡ sorted = cc in
      let (t, set, h3) = >>=-eq-ok (set_state_documents_value c opp.ndinvs sorted) _ h2 in
      let e : ◌≡◌ {A = Writes S M}
          (record { states = sts ++ t ∷ []; amounts = charge c opp.required opp.sb }) w =
        cc in
      record {
        documents = sts;
        inventory = b;
        inventory_state = t;
        states = sym (ap (λ r. r.states) e);
        holds = ex.holds;
        holds_inventory = set_documents_holds c laws opp.ndinvs sorted t set ∙ cc;
        formed = order.formed;
        ordered = order.ordered;
        fresh = ex.fresh;
        kept = λ q old k. order.same q ∙ ex.kept q old k;
        listed = All-map (λ n k. order.same (text_of n) ∙ k) opp.ns ex.listed;
        finds = λ q. order.same q ∙ ex.finds q;
        amounts = sym (ap (λ r. r.amounts) e);
      }
