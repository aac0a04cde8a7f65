-- ===== src/State/Values.antt =====
-- Reading back the values that states are given, and the keys of states.
use mitum_data_blocksign.Prelude.{some, ◌≡◌, refl, ok, arith}
use mitum_data_blocksign.DocData.{DocumentData}
use mitum_data_blocksign.Inventory.{DocumentInventory}
use mitum_data_blocksign.Chain.{Chain, ChainLaws, document_data, document_inventory}
use mitum_data_blocksign.State.{
  as_document_data, as_document_inventory, state_document_data_value, set_state_document_data_value,
  state_documents_value, set_state_documents_value,
}

module _ {A S P M : Type 0} (c : Chain A S P M) (laws : ChainLaws c) where
  pub set_document_data_holds :
      (s : S) (d : DocumentData A) (t : S)
      → set_state_document_data_value c s d ≡ ok t
      → c.state_value t ≡ some (document_data d)
  unfolding set_state_document_data_value
  set_document_data_holds s d t h = laws.set_value-value s (document_data d) t h

  pub set_documents_holds :
      (s : S) (d : DocumentInventory) (t : S)
      → set_state_documents_value c s d ≡ ok t
      → c.state_value t ≡ some (document_inventory d)
  unfolding set_state_documents_value
  set_documents_holds s d t h = laws.set_value-value s (document_inventory d) t h

module _ {A S P M : Type 0} (c : Chain A S P M) where
  pub data_value-holds :
      (s : S) (d : DocumentData A)
      → c.state_value s ≡ some (document_data d)
      → state_document_data_value c s ≡ ok d
  unfolding state_document_data_value as_document_data
  data_value-holds s d h = rw h refl

  pub data_value-held :
      (s : S) (d : DocumentData A)
      → state_document_data_value c s ≡ ok d
      → c.state_value s ≡ some (document_data d)
  unfolding state_document_data_value as_document_data
  data_value-held s d h = ground arith

  pub documents_value-held :
      (s : S) (d : DocumentInventory)
      → state_documents_value c s ≡ ok d
      → c.state_value s ≡ some (document_inventory d)
  unfolding state_documents_value as_document_inventory
  documents_value-held s d h = ground arith
