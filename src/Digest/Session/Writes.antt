-- ===== src/Digest/Session/Writes.antt =====
-- What a bulk write leaves in the collections.
use Prim.Native.String.{String}
use package.text.Mathlib.Text.{◌==◌ as str_eq}
use mitum_data_blocksign.Prelude.{
  ℕ, ◌+◌, ltb, Bool, List, [], ◌∷◌, ◌++◌, if◌then◌else◌, ok, >>=-eq-ok, fail_if->>-ok, ok-injective,
  ◌≡◌, sym, ◌∙◌, subst, All, arith,
}
use mitum_data_blocksign.Error.{not_inserted}
use mitum_data_blocksign.Digest.Slices.{write_models}
use mitum_data_blocksign.Digest.Chunks.{concat, write_each, write_models-chunks}
use mitum_data_blocksign.Digest.Mongo.{
  Mongo, WriteModel, insert_one, delete_many, Contents, StoreLaws, inserted, IsInsert, text,
}
use mitum_data_blocksign.Digest.Database.{Heights, Database}
use mitum_data_blocksign.Digest.Session.{write_models_chunk, write_in}

module _ {X : Type 0} where
  All-append : (P : X → Type 0) (xs ys : List X) → All P (xs ++ ys) → All P xs × All P ys
  All-append P [] ys h = (tt, h)
  All-append P (x ∷ xs) ys h = let (p, q) = All-append P xs ys h.1 in ((h.0, p), q)

  inserted-append :
      (p : X → Bool) (xs ys : List (WriteModel X))
      → inserted p (xs ++ ys) ≡ inserted p xs + inserted p ys
  inserted-append p [] ys = omega arith
  inserted-append p (insert_one x ∷ xs) ys = grind (arith, inserted-append p xs ys)
  inserted-append p (delete_many f ∷ xs) ys = inserted-append p xs ys

module _ {D X : Type 0} (mongo : Mongo D X) (heights : Heights) (m : Contents D X)
    (laws : StoreLaws mongo m) where
  -- The documents that pass `p` in `c`, with those that a write to `col` adds.
  abbrev pub grown : (X → Bool) → String → String → List (WriteModel X) → ℕ → ℕ
  grown p c col ms n = n + (if str_eq c col then inserted p ms else 0)

  chunk-counts :
      (col : String) (ms : List (WriteModel X)) (d d' : D)
      → All IsInsert ms
      → write_models_chunk mongo heights col ms d ≡ ok d'
      → (p : X → Bool) (c : String) → m.count p c d' ≡ grown p c col ms (m.count p c d)
  unfolding write_models_chunk
  chunk-counts col ms d d' inserts e p c =
      let ((n, after), written, e1) = >>=-eq-ok (mongo.bulk_write col ms d) _ e in
      let same : after ≡ d' =
        ok-injective ((fail_if->>-ok (ltb n 1) (not_inserted col) (ok after)).0 e1).1 in
      subst (λ x. m.count p c x ≡ grown p c col ms (m.count p c d)) same
        (laws.insert_counts col ms d after n inserts written p c)

  each-counts :
      (col : String) (cs : List (List (WriteModel X))) (d d' : D)
      → All IsInsert (concat cs)
      → write_each (write_models_chunk mongo heights col) cs d ≡ ok d'
      → (p : X → Bool) (c : String) → m.count p c d' ≡ grown p c col (concat cs) (m.count p c d)
  each-counts col [] d d' inserts e p c =
      let same : d ≡ d' = ok-injective e in
      subst (λ x. m.count p c x ≡ grown p c col [] (m.count p c d)) same (grind arith)
  each-counts col (ms ∷ cs) d d' inserts e p c =
      let (d1, first, rest) = >>=-eq-ok (write_models_chunk mongo heights col ms d) _ e in
      let (i1, i2) = All-append IsInsert ms (concat cs) inserts in
      grind (
        arith,
        each-counts col cs d1 d' i2 rest p c,
        chunk-counts col ms d d1 i1 first p c,
        inserted-append p ms (concat cs),
      )

  -- A write adds its models to its collection.
  pub write_in-counts :
      (col : String) (ms : List (WriteModel X)) (st st' : Database D)
      → All IsInsert ms
      → write_in mongo heights col ms st ≡ ok st'
      → (p : X → Bool) (c : String)
      → m.count p c st'.database ≡ grown p c col ms (m.count p c st.database)
  unfolding write_in
  write_in-counts col ms st st' inserts e p c =
      let (d, written, e1) =
        >>=-eq-ok (write_models (write_models_chunk mongo heights col) ms st.database) _ e in
      let (cs, joined, sized, same) = write_models-chunks ms in
      let each =
        each-counts col cs st.database d (subst (All IsInsert) (sym joined) inserts)
          (sym (same _ _) ∙ written) p c in
      subst (λ x. m.count p c x.database ≡ grown p c col ms (m.count p c st.database))
        (ok-injective e1)
        (subst (λ xs. m.count p c d ≡ grown p c col xs (m.count p c st.database)) joined each)
