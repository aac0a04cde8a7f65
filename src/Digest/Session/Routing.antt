-- ===== src/Digest/Session/Routing.antt =====
-- What `Prepare` makes of a block.
use mitum_data_blocksign.Prelude.{
  ℕ, suc, ◌+◌, ℤ, Bytes, length, length-append, Bool-cases, inl, inr, Option, none, some, List, [],
  ◌∷◌, ◌++◌, if◌then◌else◌, ok, >>=-eq-ok, ok-injective, ◌≡◌, refl, sym, subst, All, arith,
}
use mitum_data_blocksign.Mitum.{Addresses}
use mitum_data_blocksign.DocData
use mitum_data_blocksign.Chain.{Chain}
use mitum_data_blocksign.State.{
  is_state_document_data_key, is_state_documents_key, state_document_data_value,
}
use mitum_data_blocksign.Digest.Mongo.{Mongo, WriteModel, insert_one, IsInsert}
use mitum_data_blocksign.Digest.Database.{Heights}
use mitum_data_blocksign.Digest.Docs.{
  Blocks, OperationNode, Doc, of_document, new_operation_doc, new_account_value, new_account_doc,
  new_balance_doc, new_document_doc,
}
use mitum_data_blocksign.Digest.Session.{
  Block, BlockSession, StateModels, no_models, find_node, found_model, operation_model,
  operation_models_from, prepare_operations, prepare_operations_tree, handle_account_state,
  handle_balance_state, handle_document_data_state, handle_documents_state, handle_state,
  handle_states, prepare_accounts, prepare,
}
use mitum_data_blocksign.Digest.Session.Commit.{Inserts}

-- The collection that a state belongs to, by its key
pub data Kind : Type 0 where
  account balance document documents no_kind : Kind

abbrev pub one_of : Kind → Kind → ℕ
one_of account account = 1
one_of balance balance = 1
one_of document document = 1
one_of documents documents = 1
one_of _ _ = 0

All-snoc :
    {X : Type 0} (P : X → Type 0) (xs : List X) (x : X) → All P xs → P x → All P (xs ++ x ∷ [])
All-snoc P [] x h p = (p, tt)
All-snoc P (y ∷ ys) x h p = (h.0, All-snoc P ys x h.1 p)

length-snoc : {X : Type 0} (xs : List X) (x : X) → length (xs ++ x ∷ []) ≡ length xs + 1
length-snoc xs x = length-append xs (x ∷ [])

-- All models of the states insert, and each document has its id in the list.
abbrev pub StateInserts : {X : Type 0} → StateModels X → Type 0
StateInserts j =
    All IsInsert j.account_models
    × All IsInsert j.balance_models
    × All IsInsert j.document_models
    × All IsInsert j.documents_models
    × (length j.document_list ≡ length j.document_models)

-- How many models of each collection are added
abbrev pub Adds : {X : Type 0} → (Kind → ℕ) → StateModels X → StateModels X → Type 0
Adds n j j' =
    (length j'.account_models ≡ length j.account_models + n account)
    × (length j'.balance_models ≡ length j.balance_models + n balance)
    × (length j'.document_models ≡ length j.document_models + n document)
    × (length j'.documents_models ≡ length j.documents_models + n documents)

module _ {A S O : Type 0} (b : Blocks A S O) where
  abbrev pub kind_of : S → Kind
  kind_of st =
      if b.is_state_account_key (b.state_key st)
      then account
      else (if b.is_state_balance_key (b.state_key st)
          then balance
          else (if is_state_document_data_key (b.state_key st)
              then document
              else (if is_state_documents_key (b.state_key st) then documents else no_kind)))

  abbrev pub number_of : List S → Kind → ℕ
  number_of [] k = 0
  number_of (st ∷ sts) k = one_of (kind_of st) k + number_of sts k

-- What one state does: its model goes to the collection of its kind.
Moves : {X : Type 0} → Kind → StateModels X → StateModels X → Type 0
Moves k j j' = (StateInserts j → StateInserts j') × Adds (one_of k) j j'

module _ {A S P M O D : Type 0} ⦃a : Addresses A⦄ (c : Chain A S P M) (b : Blocks A S O)
    (mongo : Mongo D (Doc A S O)) (heights : Heights) where
  abbrev Models : Type 0
  Models = StateModels (Doc A S O)

  account_step :
      (st : S) (j j' : Models)
      → handle_account_state c b mongo heights st j ≡ ok j'
      → Moves account j j'
  unfolding handle_account_state Moves
  account_step st j j' e =
      let (rs, loaded, e1) = >>=-eq-ok (new_account_value b st) _ e in
      let (doc, made, e2) = >>=-eq-ok (new_account_doc b rs) _ e1 in
      subst (Moves account j) (ok-injective e2) (
        λ h. (All-snoc IsInsert j.account_models _ h.0 tt, h.1, h.2, h.3, h.4),
        (length-snoc j.account_models _, omega arith, omega arith, omega arith),
      )

  balance_step :
      (st : S) (j j' : Models)
      → handle_balance_state c b mongo heights st j ≡ ok j'
      → Moves balance j j'
  unfolding handle_balance_state Moves
  balance_step st j j' e =
      let (doc, made, e1) = >>=-eq-ok (new_balance_doc b st) _ e in
      subst (Moves balance j) (ok-injective e1) (
        λ h. (h.0, All-snoc IsInsert j.balance_models _ h.1 tt, h.2, h.3, h.4),
        (omega arith, length-snoc j.balance_models _, omega arith, omega arith),
      )

  document_step :
      (height : ℤ) (st : S) (j j' : Models)
      → handle_document_data_state c b mongo heights height st j ≡ ok j'
      → Moves document j j'
  unfolding handle_document_data_state Moves
  document_step height st j j' e =
      let (d, found, e1) = >>=-eq-ok (state_document_data_value c st) _ e in
      let (doc, made, e2) = >>=-eq-ok (new_document_doc b d height) _ e1 in
      let (id, named, e3) = >>=-eq-ok (DocData.document_id doc.va.doc) _ e2 in
      subst (Moves document j) (ok-injective e3) (
        λ h. (
          h.0,
          h.1,
          All-snoc IsInsert j.document_models _ h.2 tt,
          h.3,
          omega (
            arith,
            h.4,
            length-snoc j.document_list id,
            length-snoc j.document_models (insert_one (of_document doc)),
          ),
        ),
        (omega arith, omega arith, length-snoc j.document_models _, omega arith),
      )

  documents_step :
      (st : S) (j j' : Models)
      → handle_documents_state c b mongo heights st j ≡ ok j'
      → Moves documents j j'
  unfolding handle_documents_state Moves
  documents_step st j j' e =
      let (_, made, e1) = >>=-eq-ok (b.state_base_doc st) _ e in
      subst (Moves documents j) (ok-injective e1) (
        λ h. (h.0, h.1, h.2, All-snoc IsInsert j.documents_models _ h.3 tt, h.4),
        (omega arith, omega arith, omega arith, length-snoc j.documents_models _),
      )

  skipped : (j j' : Models) → j ≡ j' → Moves no_kind j j'
  unfolding Moves
  skipped j j' same =
      subst (Moves no_kind j) same (λ h. h, (omega arith, omega arith, omega arith, omega arith))

  state_step :
      (height : ℤ) (st : S) (j j' : Models)
      → handle_state c b mongo heights height st j ≡ ok j'
      → Moves (kind_of b st) j j'
  unfolding handle_state
  state_step height st j j' e = elim (Bool-cases (b.is_state_account_key (b.state_key st))) [
    | inl is_account ↦ rw is_account (account_step st j j' (rw is_account at e))
    | inr not_account ↦ elim (Bool-cases (b.is_state_balance_key (b.state_key st))) [
      | inl is_balance ↦
          rw (not_account, is_balance) (balance_step st j j' (rw (not_account, is_balance) at e))
      | inr not_balance ↦ elim (Bool-cases (is_state_document_data_key (b.state_key st))) [
        | inl is_document ↦
            rw (not_account, not_balance, is_document)
              (document_step height st j j' (rw (not_account, not_balance, is_document) at e))
        | inr not_document ↦ elim (Bool-cases (is_state_documents_key (b.state_key st))) [
          | inl is_documents ↦
              rw (not_account, not_balance, not_document, is_documents)
                (documents_step st j j'
                  (rw (not_account, not_balance, not_document, is_documents) at e))
          | inr not_documents ↦
              rw (not_account, not_balance, not_document, not_documents)
                (skipped j j'
                  (ok-injective (rw (not_account, not_balance, not_document, not_documents) at e)))
        ]
      ]
    ]
  ]

  states_step :
      (height : ℤ) (sts : List S) (j j' : Models)
      → handle_states c b mongo heights height sts j ≡ ok j'
      → (StateInserts j → StateInserts j') × Adds (number_of b sts) j j'
  unfolding handle_states Moves
  states_step height [] j j' e =
      let same : j ≡ j' = ok-injective e in
      subst (λ x. (StateInserts j → StateInserts x) × Adds (number_of b []) j x) same
        (λ h. h, (omega arith, omega arith, omega arith, omega arith))
  states_step height (st ∷ sts) j j' e =
      let (j1, one, rest) = >>=-eq-ok (handle_state c b mongo heights height st j) _ e in
      let (i1, (a1, b1, c1, d1)) = state_step height st j j1 one in
      let (i2, (a2, b2, c2, d2)) = states_step height sts j1 j' rest in
      (λ h. i2 (i1 h), (omega arith, omega arith, omega arith, omega arith))

  found_model-IsInsert :
      (blk : Block S O) (i : ℕ) (op : O) (found : Option OperationNode) (x : WriteModel (Doc A S O))
      → found_model c b mongo heights blk i op found ≡ ok x
      → IsInsert x
  unfolding found_model
  found_model-IsInsert blk i op none x e = cc
  found_model-IsInsert blk i op (some node) x e =
      let (doc, made, e1) =
        >>=-eq-ok (new_operation_doc b op blk.height blk.confirmed_at node.in_state node.reason i) _
          e in
      subst IsInsert (ok-injective e1) tt

  operations_step :
      (blk : Block S O) (nodes : List (Bytes × OperationNode)) (i : ℕ) (ops : List O)
      (ms : List (WriteModel (Doc A S O)))
      → operation_models_from c b mongo heights blk nodes i ops ≡ ok ms
      → All IsInsert ms × (length ms ≡ length ops)
  unfolding operation_models_from operation_model
  operations_step blk nodes i [] ms e =
      subst (λ xs. All IsInsert xs × (length xs ≡ 0)) (ok-injective e) (tt, refl)
  operations_step blk nodes i (op ∷ ops) ms e =
      let (x, first, e1) = >>=-eq-ok (operation_model c b mongo heights blk nodes i op) _ e in
      let (xs, others, e2) =
        >>=-eq-ok (operation_models_from c b mongo heights blk nodes (suc i) ops) _ e1 in
      let (all, size) = operations_step blk nodes (suc i) ops xs others in
      subst (λ ys. All IsInsert ys × (length ys ≡ suc (length ops))) (ok-injective e2)
        (
          (found_model-IsInsert blk i op (find_node (b.fact_hash op) nodes) x first, all),
          omega arith,
        )

  -- `Prepare` of a new session makes one model for each operation of the block, and one for each state
  -- in the collection that its key belongs to, all of them insertions, with an id for each document.
  pub prepare-Inserts :
      (bs bs' : BlockSession D S O (Doc A S O))
      → prepare c b mongo heights bs ≡ ok bs'
      → Inserts bs'
        × (length bs'.operation_models ≡ length bs.block.operations)
        × (length bs'.state_models.account_models ≡ number_of b bs.block.states account)
        × (length bs'.state_models.balance_models ≡ number_of b bs.block.states balance)
        × (length bs'.state_models.document_models ≡ number_of b bs.block.states document)
        × (length bs'.state_models.documents_models ≡ number_of b bs.block.states documents)
        × (length bs'.state_models.document_list ≡ number_of b bs.block.states document)
  unfolding prepare prepare_operations prepare_operations_tree prepare_accounts
  prepare-Inserts bs bs' e =
      let (bs1, with_operations, e1) =
        >>=-eq-ok
          (prepare_operations c b mongo heights (prepare_operations_tree c b mongo heights bs)) _
          e in
      let (ms, modelled, e2) =
        >>=-eq-ok (operation_models_from c b mongo heights bs.block _ 0 bs.block.operations) _
          with_operations in
      let (all, size) = operations_step bs.block _ 0 bs.block.operations ms modelled in
      let same : bs1 ≡ _ = sym (ok-injective e2) in
      let (j, handled, e3) =
        >>=-eq-ok (handle_states c b mongo heights bs.block.height bs.block.states no_models) _
          (rw same at e1) in
      let (inserts, (n1, n2, n3, n4)) =
        states_step bs.block.height bs.block.states no_models j handled in
      let (i1, i2, i3, i4, ids) = inserts (tt, tt, tt, tt, refl) in
      subst
        (λ x.
          Inserts x
          × (length x.operation_models ≡ length bs.block.operations)
          × (length x.state_models.account_models ≡ number_of b bs.block.states account)
          × (length x.state_models.balance_models ≡ number_of b bs.block.states balance)
          × (length x.state_models.document_models ≡ number_of b bs.block.states document)
          × (length x.state_models.documents_models ≡ number_of b bs.block.states documents)
          × (length x.state_models.document_list ≡ number_of b bs.block.states document))
        (ok-injective e3)
        (
          (all, i1, i2, i3, i4),
          size,
          omega arith,
          omega arith,
          omega arith,
          omega arith,
          omega arith,
        )
