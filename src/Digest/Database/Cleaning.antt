-- ===== src/Digest/Database/Cleaning.antt =====
-- What cleaning leaves in the collections.
use Prim.Native.String.{String}
use package.text.Mathlib.Text.{◌==◌ as str_eq}
use mitum_data_blocksign.Prelude.{
  ℤ, negsuc, ◌+ℤ◌, Bytes, Bool, true, false, not, ◌&&◌, ◌||◌, any, Bool-cases, inl, inr, List, [],
  ◌∷◌, if◌then◌else◌, ok, >>=-eq-ok, ok-injective, ◌≡◌, refl, ◌∙◌, subst, arith,
}
use mitum_data_blocksign.Digest.Mongo.{
  Mongo, Contents, StoreLaws, height, text, at_most, equals, anything, entry,
}
use mitum_data_blocksign.Digest.Database.{
  Heights, Database, clean_document, clean_collections, drop_all, all_collections, store_last_block,
  is_first, default_col_name_document,
}

module _ {D X : Type 0} (m : Contents D X) where
  -- What a document must not match to outlive the cleaning: an id of the block, at its height or below
  abbrev pub kept : ℤ → List Bytes → (X → Bool) → X → Bool
  kept h [] p x = p x
  kept h (id ∷ ids) p x =
      kept h ids p x
      && not (
          m.matches
            (entry "documentid" (equals (text id)) (entry "height" (at_most (height h)) anything))
            x)

module _ {D X : Type 0} (mongo : Mongo D X) (heights : Heights) (m : Contents D X)
    (laws : StoreLaws mongo m) where
  drop_all-keeps_none :
      (cols : List String) (d d' : D) (p : X → Bool) (c : String)
      → drop_all mongo heights cols d ≡ ok d'
      → m.count p c d ≡ 0
      → m.count p c d' ≡ 0
  unfolding drop_all
  drop_all-keeps_none [] d d' p c e h = subst (λ x. m.count p c x ≡ 0) (ok-injective e) h
  drop_all-keeps_none (col ∷ cols) d d' p c e h =
      let (d1, dropped, rest) = >>=-eq-ok (mongo.drop_collection col d) _ e in
      drop_all-keeps_none cols d1 d' p c rest (grind (arith, laws.drop_counts col d d1 dropped p c))

  drop_all-empties :
      (cols : List String) (d d' : D) (p : X → Bool) (c : String)
      → drop_all mongo heights cols d ≡ ok d'
      → any (str_eq c) cols ≡ true
      → m.count p c d' ≡ 0
  unfolding drop_all
  drop_all-empties [] d d' p c e h = cc
  drop_all-empties (col ∷ cols) d d' p c e h =
      let (d1, dropped, rest) = >>=-eq-ok (mongo.drop_collection col d) _ e in
      elim (Bool-cases (str_eq c col)) [
        | inl this ↦
            drop_all-keeps_none cols d1 d' p c rest
              (laws.drop_counts col d d1 dropped p c ∙ rw this refl)
        | inr other ↦
            drop_all-empties cols d1 d' p c rest
              (subst (λ b. (b || any (str_eq c) cols) ≡ true) other h)
      ]

  store_last_block-counts :
      (h : ℤ) (st st' : Database D)
      → store_last_block mongo heights h st ≡ ok st'
      → (p : X → Bool) (c : String) → m.count p c st'.database ≡ m.count p c st.database
  unfolding store_last_block
  store_last_block-counts h st st' e p c =
      let (d, written, e1) = >>=-eq-ok (mongo.set_last_block_info h st.database) _ e in
      subst (λ x. m.count p c x.database ≡ m.count p c st.database) (ok-injective e1)
        (laws.info_counts h st.database d written p c)

  clean_collections-empties :
      (st st' : Database D)
      → clean_collections mongo heights st ≡ ok st'
      → (p : X → Bool) (c : String) → any (str_eq c) all_collections ≡ true
      → m.count p c st'.database ≡ 0
  unfolding clean_collections
  clean_collections-empties st st' e p c known =
      let (d, dropped, e1) = >>=-eq-ok (drop_all mongo heights all_collections st.database) _ e in
      store_last_block-counts heights.nil_height _ st' e1 p c
      ∙ drop_all-empties all_collections st.database d p c dropped known

  -- Before the first blocks, cleaning one document drops every collection.
  pub clean_document-empties :
      (h : ℤ) (col : String) (id : Bytes) (st st' : Database D)
      → is_first mongo heights h ≡ true
      → clean_document mongo heights h col id st ≡ ok st'
      → (p : X → Bool) (c : String) → any (str_eq c) all_collections ≡ true
      → m.count p c st'.database ≡ 0
  unfolding clean_document
  clean_document-empties h col id st st' first e p c known =
      clean_collections-empties st st' (rw first at e) p c known

  -- At a later height, the documents that the filter matches are deleted, and no others.
  pub clean_document-counts :
      (h : ℤ) (id : Bytes) (st st' : Database D)
      → is_first mongo heights h ≡ false
      → clean_document mongo heights h default_col_name_document id st ≡ ok st'
      → (p : X → Bool) (c : String)
      → m.count p c st'.database
        ≡ m.count
            (λ x. if str_eq c default_col_name_document then kept m h (id ∷ []) p x else p x)
            c
            st.database
  unfolding clean_document
  clean_document-counts h id st st' later e p c =
      let ((n, d), deleted, stored) =
        >>=-eq-ok (mongo.bulk_write default_col_name_document _ st.database) _ (rw later at e) in
      store_last_block-counts (h +ℤ negsuc 0) _ st' stored p c
      ∙ laws.delete_counts default_col_name_document _ st.database d n deleted p c
