-- ===== src/Digest/Session.antt =====
-- digest/block_session.go: `BlockSession`, which copies one block into the digest's database.
pub mod Writes
pub mod Commit
pub mod Routing
use Prim.Native.String.{String}
use mitum_data_blocksign.Prelude.{
  ℕ, suc, ◌+◌, ℤ, Bytes, bytes_eq, ltb, length, Bool, Option, none, some, List, [], ◌∷◌, ◌++◌, map,
  if◌then◌else◌, ok, err, panic, ◌>>=◌, ◌>>◌, fail_if,
}
use mitum_data_blocksign.Error.{Error, readonly_mode, not_in_operations_tree, not_inserted}
use mitum_data_blocksign.Mitum.{Outcome, Addresses}
use mitum_data_blocksign.DocData
use mitum_data_blocksign.Chain.{Chain}
use mitum_data_blocksign.State.{
  is_state_document_data_key, is_state_documents_key, state_document_data_value,
}
use mitum_data_blocksign.Digest.Slices.{write_models}
use mitum_data_blocksign.Digest.Mongo.{Mongo, WriteModel, insert_one}
use mitum_data_blocksign.Digest.Database.{
  Heights, Database, set_last_block, new_from, clean_document, default_col_name_account,
  default_col_name_balance, default_col_name_operation, default_col_name_document,
  default_col_name_documents,
}
use mitum_data_blocksign.Digest.Docs.{
  Blocks, OperationNode, Doc, of_operation, of_account, of_balance, of_document, of_documents,
  new_operation_doc, new_account_value, new_account_doc, new_balance_doc, new_document_doc,
}

-- What the session reads of `block.Block`
pub record Block (S O : Type 0) : Type 0 where
  pub height : ℤ
  pub confirmed_at : ℤ
  pub operations_tree : List OperationNode
  pub operations : List O
  pub states : List S

-- The models of the states of a block, and `documentList`
pub record StateModels (X : Type 0) : Type 0 where
  pub account_models : List (WriteModel X)
  pub balance_models : List (WriteModel X)
  pub document_models : List (WriteModel X)
  pub documents_models : List (WriteModel X)
  pub document_list : List Bytes

abbrev pub no_models : {X : Type 0} → StateModels X
no_models = record {
  account_models = [];
  balance_models = [];
  document_models = [];
  documents_models = [];
  document_list = [];
}

-- `BlockSession`, without the times it measures
pub record BlockSession (D S O X : Type 0) : Type 0 where
  pub block : Block S O
  pub st : Database D
  pub ops_tree_nodes : List (Bytes × OperationNode)
  pub operation_models : List (WriteModel X)
  pub state_models : StateModels X

abbrev pub find_node : Bytes → List (Bytes × OperationNode) → Option OperationNode
find_node h [] = none
find_node h ((k, node) ∷ nodes) = if bytes_eq k h then some node else find_node h nodes

module _ {A S P M O D : Type 0} ⦃a : Addresses A⦄ (c : Chain A S P M) (b : Blocks A S O)
    (mongo : Mongo D (Doc A S O)) (heights : Heights) where
  unfoldable pub new_block_session :
      Database D → Block S O → Outcome (BlockSession D S O (Doc A S O))
  new_block_session st blk = do
    fail_if st.readonly readonly_mode
    nst ← new_from mongo heights st
    ok (record {
      block = blk;
      st = nst;
      ops_tree_nodes = [];
      operation_models = [];
      state_models = no_models;
    })

  -- `prepareOperationsTree`: a later node of a key replaces an earlier one.
  unfoldable pub put_nodes :
      List OperationNode → List (Bytes × OperationNode) → List (Bytes × OperationNode)
  put_nodes [] nodes = nodes
  put_nodes (node ∷ others) nodes = put_nodes others ((b.key_hash node.key, node) ∷ nodes)

  unfoldable pub prepare_operations_tree :
      BlockSession D S O (Doc A S O) → BlockSession D S O (Doc A S O)
  prepare_operations_tree bs = record bs { ops_tree_nodes = put_nodes bs.block.operations_tree [] }

  -- `node`, and the model of an operation that is found in the tree
  unfoldable pub found_model :
      Block S O → ℕ → O → Option OperationNode → Outcome (WriteModel (Doc A S O))
  found_model blk i op none = err (not_in_operations_tree (b.fact_hash op))
  found_model blk i op (some node) = do
    doc ← new_operation_doc b op blk.height blk.confirmed_at node.in_state node.reason i
    ok (insert_one (of_operation doc))

  unfoldable pub operation_model :
      Block S O → List (Bytes × OperationNode) → ℕ → O → Outcome (WriteModel (Doc A S O))
  operation_model blk nodes i op = found_model blk i op (find_node (b.fact_hash op) nodes)

  -- The loop of `prepareOperations`, from the `i`-th operation
  unfoldable pub operation_models_from :
      Block S O
      → List (Bytes × OperationNode)
      → ℕ
      → List O
      → Outcome (List (WriteModel (Doc A S O)))
  operation_models_from blk nodes i [] = ok []
  operation_models_from blk nodes i (op ∷ ops) = do
    x ← operation_model blk nodes i op
    xs ← operation_models_from blk nodes (suc i) ops
    ok (x ∷ xs)

  unfoldable pub prepare_operations :
      BlockSession D S O (Doc A S O) → Outcome (BlockSession D S O (Doc A S O))
  prepare_operations bs =
      operation_models_from bs.block bs.ops_tree_nodes 0 bs.block.operations >>= λ ms.
      ok (record bs { operation_models = ms })

  unfoldable pub handle_account_state :
      S → StateModels (Doc A S O) → Outcome (StateModels (Doc A S O))
  handle_account_state st j = do
    rs ← new_account_value b st
    doc ← new_account_doc b rs
    ok (record j { account_models = j.account_models ++ insert_one (of_account doc) ∷ [] })

  unfoldable pub handle_balance_state :
      S → StateModels (Doc A S O) → Outcome (StateModels (Doc A S O))
  handle_balance_state st j = do
    doc ← new_balance_doc b st
    ok (record j { balance_models = j.balance_models ++ insert_one (of_balance doc) ∷ [] })

  unfoldable pub handle_document_data_state :
      ℤ → S → StateModels (Doc A S O) → Outcome (StateModels (Doc A S O))
  handle_document_data_state h st j = do
    doc ← state_document_data_value c st
    ndoc ← new_document_doc b doc h
    id ← DocData.document_id ndoc.va.doc
    ok (record j {
      document_models = j.document_models ++ insert_one (of_document ndoc) ∷ [];
      document_list = j.document_list ++ id ∷ [];
    })

  -- `NewDocumentsDoc` only encodes the state.
  unfoldable pub handle_documents_state :
      S → StateModels (Doc A S O) → Outcome (StateModels (Doc A S O))
  handle_documents_state st j = do
    b.state_base_doc st
    ok (record j { documents_models = j.documents_models ++ insert_one (of_documents st) ∷ [] })

  -- The switch of `prepareAccounts`
  unfoldable pub handle_state : ℤ → S → StateModels (Doc A S O) → Outcome (StateModels (Doc A S O))
  handle_state h st j =
      if b.is_state_account_key (b.state_key st)
      then handle_account_state st j
      else (if b.is_state_balance_key (b.state_key st)
          then handle_balance_state st j
          else (if is_state_document_data_key (b.state_key st)
              then handle_document_data_state h st j
              else (if is_state_documents_key (b.state_key st)
                  then handle_documents_state st j
                  else ok j)))

  unfoldable pub handle_states :
      ℤ → List S → StateModels (Doc A S O) → Outcome (StateModels (Doc A S O))
  handle_states h [] j = ok j
  handle_states h (st ∷ sts) j = handle_state h st j >>= handle_states h sts

  -- `prepareAccounts`, on a new session
  unfoldable pub prepare_accounts :
      BlockSession D S O (Doc A S O) → Outcome (BlockSession D S O (Doc A S O))
  prepare_accounts bs = handle_states bs.block.height bs.block.states no_models >>= λ j.
      ok (record bs { state_models = j })

  -- `Prepare`
  unfoldable pub prepare : BlockSession D S O (Doc A S O) → Outcome (BlockSession D S O (Doc A S O))
  prepare bs = prepare_operations (prepare_operations_tree bs) >>= prepare_accounts

module _ {D X : Type 0} (mongo : Mongo D X) (heights : Heights) where
  -- `writeModelsChunk`
  unfoldable pub write_models_chunk : String → List (WriteModel X) → D → Outcome D
  write_models_chunk col models d = do
    (inserted_count, d') ← mongo.bulk_write col models d
    fail_if (ltb inserted_count 1) (not_inserted col)
    ok d'

  unfoldable pub write_in : String → List (WriteModel X) → Database D → Outcome (Database D)
  write_in col models st = write_models (write_models_chunk col) models st.database >>= λ d.
      ok (record st { database = d })

  unfoldable pub clean_documents : ℤ → List Bytes → Database D → Outcome (Database D)
  clean_documents h [] st = ok st
  clean_documents h (id ∷ ids) st =
      clean_document mongo heights h default_col_name_document id st >>= clean_documents h ids

  -- `if len(bs.documentModels) > 0 { … }`: older versions of the documents are deleted first.
  unfoldable pub commit_documents : ℤ → StateModels X → Database D → Outcome (Database D)
  commit_documents h j st =
      if ltb 0 (length j.document_models)
      then (clean_documents h j.document_list st
          >>= write_in default_col_name_document j.document_models)
      else ok st

  -- `Commit`, to the database that it leaves
  unfoldable pub commit : {S O : Type 0} → BlockSession D S O X → Outcome (Database D)
  commit bs = do
    st1 ← write_in default_col_name_operation bs.operation_models bs.st
    st2 ← write_in default_col_name_account bs.state_models.account_models st1
    st3 ← write_in default_col_name_balance bs.state_models.balance_models st2
    st4 ← commit_documents bs.block.height bs.state_models st3
    write_in default_col_name_documents bs.state_models.documents_models st4

module _ {A S P M O D : Type 0} ⦃a : Addresses A⦄ (c : Chain A S P M) (b : Blocks A S O)
    (mongo : Mongo D (Doc A S O)) (heights : Heights) where
  -- `DigestBlock` of digest/digest.go, to the database that its session leaves
  unfoldable pub digest_block : Database D → Block S O → Outcome (Database D)
  digest_block st blk = do
    bs ← new_block_session c b mongo heights st blk
    prepared ← prepare c b mongo heights bs
    commit mongo heights prepared

  -- `Digester.digest`: the session has a connection of its own, and the digester's database goes on
  -- with what the session stored.
  unfoldable pub digest : Database D → Block S O → Outcome (Database D)
  digest st blk = do
    left ← digest_block st blk
    set_last_block mongo heights blk.height (record st { database = left.database })
