-- ===== src/Process/Create/Passes.antt =====
-- When `Process` of a creation of documents passes.
use mitum_data_blocksign.Prelude.{none, List, [], ◌∷◌, ◌++◌, ◌≡◌, refl, All, ok, inl, inr}
use mitum_data_blocksign.Mitum.{Util, Addresses}
use mitum_data_blocksign.DocInfo.{DocInfo}
use mitum_data_blocksign.DocInfo
use mitum_data_blocksign.DocData
use mitum_data_blocksign.DocData.Checks.{DocInfo-valid}
use mitum_data_blocksign.Inventory.{DocumentInventory, id_text}
use mitum_data_blocksign.Inventory
use mitum_data_blocksign.Inventory.Lookup.{Named-some, WellFormed, find}
use mitum_data_blocksign.Inventory.Changes.{Appended, append-cases, sort-Sorted}
use mitum_data_blocksign.Chain.{Chain, ChainLaws, Value, document_data, document_inventory}
use mitum_data_blocksign.State.{set_state_document_data_value, set_state_documents_value}
use mitum_data_blocksign.State.Values.{data_value-holds}
use mitum_data_blocksign.Fee.{charge}
use mitum_data_blocksign.Process.Writes.{Writes}
use mitum_data_blocksign.Process.Create.{
  CreateDocumentsItemProcessor, CreateDocumentsProcessor, item_process, process_items, process,
}
use mitum_data_blocksign.Process.Create.Freshness.{Fresh, Fresh-Gains}
use mitum_data_blocksign.Process.Create.Results.{Created, process-Created}

module _ {A S P M : Type 0} ⦃a : Addresses A⦄ ⦃u : Util⦄ (c : Chain A S P M)
    (laws : ChainLaws c) where
  append_fresh :
      (dinv : DocumentInventory) (d : DocInfo)
      → WellFormed dinv
      → DocInfo.is_valid d ≡ ok tt
      → find (id_text d) dinv.doc_infos ≡ none
      → (b : DocumentInventory) × (Inventory.append dinv d ≡ ok b) × Appended dinv d b
  append_fresh dinv d w v f =
      let (x, e, _) = DocInfo-valid d v in
      elim (append-cases dinv d w v (Named-some d x e)) [
        | inl (old, found, _) ↦ cc
        | inr (b, _, made, appended) ↦ (b, made, appended)
      ]

  process_items_passes :
      (settable : (s : S) (v : Value A) → (t : S) × (c.set_value s v ≡ ok t))
      (ns : List (CreateDocumentsItemProcessor A S)) (dinv : DocumentInventory)
      → WellFormed dinv
      → All (λ n. DocInfo.is_valid (DocData.info n.item.doc) ≡ ok tt) ns
      → Fresh ns dinv.doc_infos
      → (sts : List S) × (final : DocumentInventory) × (process_items c ns dinv ≡ ok (sts, final))
        × WellFormed final
  unfolding process_items item_process set_state_document_data_value
  process_items_passes settable [] dinv w v f = ([], dinv, refl, w)
  process_items_passes settable (n ∷ ns) dinv w v f =
      let (s, set) = settable n.nds (document_data n.item.doc) in
      let holds = laws.set_value-value n.nds (document_data n.item.doc) s set in
      let read = data_value-holds c s n.item.doc holds in
      let (b, added, appended) = append_fresh dinv (DocData.info n.item.doc) w v.0 f.0 in
      let (sts, final, rest, formed) = process_items_passes settable ns b appended.formed v.1 (
        Fresh-Gains ns (DocData.info n.item.doc) dinv.doc_infos b.doc_infos appended.gains f.1
          f.2) in
      (s ∷ sts, final, rw (set, read, added, rest) refl, formed)

  -- Where states take every value, the sender's inventory is well-formed, and the items' infos are
  -- valid and have distinct ids that the inventory does not list, `Process` passes and writes what a
  -- creation must write: the documents, the inventory in order with the new infos, and the charges.
  pub process_passes :
      (settable : (s : S) (v : Value A) → (t : S) × (c.set_value s v ≡ ok t))
      (opp : CreateDocumentsProcessor A S M)
      → WellFormed opp.dinv
      → All (λ n. DocInfo.is_valid (DocData.info n.item.doc) ≡ ok tt) opp.ns
      → Fresh opp.ns opp.dinv.doc_infos
      → (w : Writes S M) × (process c opp ≡ ok w) × Created c laws opp w
  unfolding process set_state_documents_value
  process_passes settable opp formed valid fresh =
      let (sts, dinv, items, final) =
        process_items_passes settable opp.ns opp.dinv formed valid fresh in
      let (b, sorted, _) = sort-Sorted dinv final in
      let (t, set) = settable opp.ndinvs (document_inventory b) in
      let w : Writes S M = record {
        states = sts ++ t ∷ [];
        amounts = charge c opp.required opp.sb;
      } in
      let passes : process c opp ≡ ok w = rw (items, sorted, set) refl in
      (w, passes, process-Created c laws opp w formed valid passes)
