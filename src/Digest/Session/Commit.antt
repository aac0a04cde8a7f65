-- ===== src/Digest/Session/Commit.antt =====
-- What a commit leaves in the collections.
use Prim.Native.String.{String}
use package.text.Mathlib.Text.{◌==◌ as str_eq}
use mitum_data_blocksign.Prelude.{
  ◌+◌, ℤ, Bytes, ltb, length, Bool, true, false, any, List, [], ◌∷◌, if◌then◌else◌, ok, >>=-eq-ok,
  ok-injective, ◌≡◌, refl, sym, ap, ◌∙◌, subst, All, arith,
}
use mitum_data_blocksign.Digest.Mongo.{Mongo, Contents, StoreLaws, inserted, IsInsert, text}
use mitum_data_blocksign.Digest.Database.{
  Heights, Database, clean_document, all_collections, is_first, default_col_name_account,
  default_col_name_balance, default_col_name_operation, default_col_name_document,
  default_col_name_documents,
}
use mitum_data_blocksign.Digest.Session.{
  BlockSession, StateModels, write_in, clean_documents, commit_documents, commit,
}
use mitum_data_blocksign.Digest.Session.Writes.{write_in-counts}
use mitum_data_blocksign.Digest.Database.Cleaning.{
  kept, clean_document-empties, clean_document-counts,
}

-- All models of a session insert.
abbrev pub Inserts : {D S O X : Type 0} → BlockSession D S O X → Type 0
Inserts bs =
    All IsInsert bs.operation_models
    × All IsInsert bs.state_models.account_models
    × All IsInsert bs.state_models.balance_models
    × All IsInsert bs.state_models.document_models
    × All IsInsert bs.state_models.documents_models

module _ {D X : Type 0} (mongo : Mongo D X) (heights : Heights) (m : Contents D X)
    (laws : StoreLaws mongo m) where
  clean_documents-empties :
      (h : ℤ) (ids : List Bytes) (st st' : Database D)
      → is_first mongo heights h ≡ true
      → ltb 0 (length ids) ≡ true
      → clean_documents mongo heights h ids st ≡ ok st'
      → (p : X → Bool) (c : String) → any (str_eq c) all_collections ≡ true
      → m.count p c st'.database ≡ 0
  unfolding clean_documents
  clean_documents-empties h [] st st' first some_ids e p c known = absurd (grind arith)
  clean_documents-empties h (id ∷ []) st st' first some_ids e p c known =
      let (st1, cleaned, rest) =
        >>=-eq-ok (clean_document mongo heights h default_col_name_document id st) _ e in
      subst (λ x. m.count p c x.database ≡ 0) (ok-injective rest)
        (clean_document-empties mongo heights m laws h default_col_name_document id st st1 first
          cleaned p c known)
  clean_documents-empties h (id ∷ id' ∷ ids) st st' first some_ids e p c known =
      let (st1, cleaned, rest) =
        >>=-eq-ok (clean_document mongo heights h default_col_name_document id st) _ e in
      clean_documents-empties h (id' ∷ ids) st1 st' first (grind arith) rest p c known

  commit_documents-empties :
      (h : ℤ) (j : StateModels X) (st st' : Database D)
      → is_first mongo heights h ≡ true
      → ltb 0 (length j.document_models) ≡ true
      → ltb 0 (length j.document_list) ≡ true
      → All IsInsert j.document_models
      → commit_documents mongo heights h j st ≡ ok st'
      → (p : X → Bool) → m.count p default_col_name_operation st'.database ≡ 0
  unfolding commit_documents
  commit_documents-empties h j st st' first some_models some_ids inserts e p =
      let (st1, cleaned, written) =
        >>=-eq-ok (clean_documents mongo heights h j.document_list st) _ (rw some_models at e) in
      write_in-counts mongo heights m laws default_col_name_document j.document_models st1 st'
        inserts written p default_col_name_operation
      ∙ rw
          (clean_documents-empties h j.document_list st st1 first some_ids cleaned p
            default_col_name_operation refl)
          refl

  -- A commit of a block with a document, at a height up to the genesis block's, leaves no operation in
  -- the database: cleaning the document drops all collections, with what the commit wrote before.
  pub commit-first :
      {S O : Type 0} (bs : BlockSession D S O X) (st' : Database D)
      → is_first mongo heights bs.block.height ≡ true
      → ltb 0 (length bs.state_models.document_models) ≡ true
      → ltb 0 (length bs.state_models.document_list) ≡ true
      → Inserts bs
      → commit mongo heights bs ≡ ok st'
      → (p : X → Bool) → m.count p default_col_name_operation st'.database ≡ 0
  unfolding commit
  commit-first bs st' first some_models some_ids inserts e p =
      let (st1, w1, e1) =
        >>=-eq-ok (write_in mongo heights default_col_name_operation bs.operation_models bs.st) _
          e in
      let (st2, w2, e2) =
        >>=-eq-ok
          (write_in mongo heights default_col_name_account bs.state_models.account_models st1) _
          e1 in
      let (st3, w3, e3) =
        >>=-eq-ok
          (write_in mongo heights default_col_name_balance bs.state_models.balance_models st2) _
          e2 in
      let (st4, w4, e4) =
        >>=-eq-ok (commit_documents mongo heights bs.block.height bs.state_models st3) _ e3 in
      write_in-counts mongo heights m laws default_col_name_documents
        bs.state_models.documents_models st4 st' inserts.4 e4 p default_col_name_operation
      ∙ rw
          (commit_documents-empties bs.block.height bs.state_models st3 st4 first some_models
            some_ids inserts.3 w4 p)
          refl

  clean_documents-counts :
      (h : ℤ) (ids : List Bytes) (st st' : Database D)
      → is_first mongo heights h ≡ false
      → clean_documents mongo heights h ids st ≡ ok st'
      → (p : X → Bool)
      → (m.count p default_col_name_document st'.database
          ≡ m.count (kept m h ids p) default_col_name_document st.database)
        × ((c : String)
            → str_eq c default_col_name_document ≡ false
            → m.count p c st'.database ≡ m.count p c st.database)
  unfolding clean_documents
  clean_documents-counts h [] st st' later e p =
      let same : st' ≡ st = sym (ok-injective e) in
      (
        ap (λ x. m.count p default_col_name_document x.database) same,
        λ c other. ap (λ x. m.count p c x.database) same,
      )
  clean_documents-counts h (id ∷ ids) st st' later e p =
      let (st1, cleaned, rest) =
        >>=-eq-ok (clean_document mongo heights h default_col_name_document id st) _ e in
      let (here, elsewhere) = clean_documents-counts h ids st1 st' later rest p in
      (
        here
            ∙ clean_document-counts mongo heights m laws h id st st1 later cleaned (kept m h ids p)
                default_col_name_document,
        λ c other.
            elsewhere c other
            ∙ clean_document-counts mongo heights m laws h id st st1 later cleaned p c
            ∙ ap (λ b. m.count (λ x. if b then kept m h (id ∷ []) p x else p x) c st.database)
                other,
      )

  commit_documents-counts :
      (h : ℤ) (j : StateModels X) (st st' : Database D)
      → is_first mongo heights h ≡ false
      → ltb 0 (length j.document_models) ≡ true
      → All IsInsert j.document_models
      → commit_documents mongo heights h j st ≡ ok st'
      → (p : X → Bool)
      → (m.count p default_col_name_document st'.database
          ≡ m.count (kept m h j.document_list p) default_col_name_document st.database
            + inserted p j.document_models)
        × ((c : String)
            → str_eq c default_col_name_document ≡ false
            → m.count p c st'.database ≡ m.count p c st.database)
  unfolding commit_documents
  commit_documents-counts h j st st' later some_models inserts e p =
      let (st1, cleaned, written) =
        >>=-eq-ok (clean_documents mongo heights h j.document_list st) _ (rw some_models at e) in
      let (here, elsewhere) = clean_documents-counts h j.document_list st st1 later cleaned p in
      (
        write_in-counts mongo heights m laws default_col_name_document j.document_models st1 st'
              inserts written p default_col_name_document
            ∙ rw here refl,
        λ c other.
            write_in-counts mongo heights m laws default_col_name_document j.document_models st1 st'
              inserts written p c
            ∙ rw (other, elsewhere c other) (omega arith),
      )

  -- A commit of a block with documents, at a later height, adds the models of the block to their
  -- collections, whatever test counts them, and deletes of the documents those with an id of the block
  -- at its height or below.
  pub commit-counts :
      {S O : Type 0} (bs : BlockSession D S O X) (st' : Database D)
      → is_first mongo heights bs.block.height ≡ false
      → ltb 0 (length bs.state_models.document_models) ≡ true
      → Inserts bs
      → commit mongo heights bs ≡ ok st'
      → (p : X → Bool)
      → (m.count p default_col_name_operation st'.database
          ≡ m.count p default_col_name_operation bs.st.database + inserted p bs.operation_models)
        × (m.count p default_col_name_account st'.database
            ≡ m.count p default_col_name_account bs.st.database
              + inserted p bs.state_models.account_models)
        × (m.count p default_col_name_balance st'.database
            ≡ m.count p default_col_name_balance bs.st.database
              + inserted p bs.state_models.balance_models)
        × (m.count p default_col_name_document st'.database
            ≡ m.count
                (kept m bs.block.height bs.state_models.document_list p)
                default_col_name_document
                bs.st.database
              + inserted p bs.state_models.document_models)
        × (m.count p default_col_name_documents st'.database
            ≡ m.count p default_col_name_documents bs.st.database
              + inserted p bs.state_models.documents_models)
  unfolding commit
  commit-counts bs st' later some_models inserts e p =
      let j = bs.state_models in
      let (st1, w1, e1) =
        >>=-eq-ok (write_in mongo heights default_col_name_operation bs.operation_models bs.st) _
          e in
      let (st2, w2, e2) =
        >>=-eq-ok (write_in mongo heights default_col_name_account j.account_models st1) _ e1 in
      let (st3, w3, e3) =
        >>=-eq-ok (write_in mongo heights default_col_name_balance j.balance_models st2) _ e2 in
      let (st4, w4, e4) = >>=-eq-ok (commit_documents mongo heights bs.block.height j st3) _ e3 in
      let c1 =
        write_in-counts mongo heights m laws default_col_name_operation bs.operation_models bs.st
          st1 inserts.0 w1 in
      let c2 =
        write_in-counts mongo heights m laws default_col_name_account j.account_models st1 st2
          inserts.1 w2 in
      let c3 =
        write_in-counts mongo heights m laws default_col_name_balance j.balance_models st2 st3
          inserts.2 w3 in
      let (d4, c4) =
        commit_documents-counts bs.block.height j st3 st4 later some_models inserts.3 w4 p in
      let c5 =
        write_in-counts mongo heights m laws default_col_name_documents j.documents_models st4 st'
          inserts.4 e4 in
      let q = kept m bs.block.height j.document_list p in
      (
        omega (
          arith,
          c1 p default_col_name_operation,
          c2 p default_col_name_operation,
          c3 p default_col_name_operation,
          c4 default_col_name_operation refl,
          c5 p default_col_name_operation,
        ),
        omega (
          arith,
          c1 p default_col_name_account,
          c2 p default_col_name_account,
          c3 p default_col_name_account,
          c4 default_col_name_account refl,
          c5 p default_col_name_account,
        ),
        omega (
          arith,
          c1 p default_col_name_balance,
          c2 p default_col_name_balance,
          c3 p default_col_name_balance,
          c4 default_col_name_balance refl,
          c5 p default_col_name_balance,
        ),
        omega (
          arith,
          c1 q default_col_name_document,
          c2 q default_col_name_document,
          c3 q default_col_name_document,
          d4,
          c5 p default_col_name_document,
        ),
        omega (
          arith,
          c1 p default_col_name_documents,
          c2 p default_col_name_documents,
          c3 p default_col_name_documents,
          c4 default_col_name_documents refl,
          c5 p default_col_name_documents,
        ),
      )
