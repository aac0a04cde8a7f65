-- ===== src/Tests/Store.antt =====
-- A database that is a function from names to lists of rows, with an evaluator of queries.
use Prim.Native.String.{String}
use package.text.Mathlib.Text.{◌==◌ as str_eq}
use mitum_data_blocksign.Prelude.{
  ℕ, suc, ◌+◌, ℤ, ltb_ℤ, bytes_eq, ltb, Bool, true, false, not, ◌&&◌, ◌||◌, Option, none, some,
  List, [], ◌∷◌, if◌then◌else◌, ok, ok-injective, ◌≡◌, refl, sym, ap, ◌∙◌, All, arith,
}
use mitum_data_blocksign.Digest.Mongo.{
  Value, text, texts, height, index, Condition, among, above, at_least, below, at_most, equals,
  Filter, anything, entry, any_of, all_of, Filters, no_filters, filter, WriteModel, insert_one,
  delete_many, Mongo, Contents, QueryLaws, StoreLaws, has_text, match_any, match_all, inserted,
  IsInsert,
}

pub record Store (X : Type 0) : Type 0 where
  pub rows : String → List X
  pub info : Option ℤ

abbrev pub meets_value : Condition → Value → Bool
meets_value (among (x ∷ [])) (texts xs) = has_text x xs
meets_value (equals (text x)) (text y) = bytes_eq x y
meets_value (equals (height o)) (height h) = not (ltb_ℤ o h) && not (ltb_ℤ h o)
meets_value (above (height o)) (height h) = ltb_ℤ o h
meets_value (below (height o)) (height h) = ltb_ℤ h o
meets_value (at_least (height o)) (height h) = not (ltb_ℤ h o)
meets_value (at_most (height o)) (height h) = not (ltb_ℤ o h)
meets_value (above (index o)) (index n) = ltb o n
meets_value (below (index o)) (index n) = ltb n o
meets_value _ _ = false

abbrev pub meets_field : Condition → Option Value → Bool
meets_field c none = false
meets_field c (some v) = meets_value c v

module _ {X : Type 0} (field : String → X → Option Value) where
  unfoldable mutual
    pub matches_row : Filter → X → Bool
    matches_row anything x = true
    matches_row (entry k c f) x = meets_field c (field k x) && matches_row f x
    matches_row (any_of fs f) x = any_row fs x && matches_row f x
    matches_row (all_of fs f) x = all_rows fs x && matches_row f x

    pub any_row : Filters → X → Bool
    any_row no_filters x = false
    any_row (filter f fs) x = matches_row f x || any_row fs x

    pub all_rows : Filters → X → Bool
    all_rows no_filters x = true
    all_rows (filter f fs) x = matches_row f x && all_rows fs x

  unfoldable pub count_rows : (X → Bool) → List X → ℕ
  count_rows p [] = 0
  count_rows p (x ∷ xs) = if p x then suc (count_rows p xs) else count_rows p xs

  unfoldable pub delete_rows : Filter → List X → List X
  delete_rows f [] = []
  delete_rows f (x ∷ xs) = if matches_row f x then delete_rows f xs else x ∷ delete_rows f xs

  unfoldable pub apply_all : List (WriteModel X) → List X → List X
  apply_all [] xs = xs
  apply_all (insert_one x ∷ ms) xs = apply_all ms (x ∷ xs)
  apply_all (delete_many f ∷ ms) xs = apply_all ms (delete_rows f xs)

  unfoldable pub change : String → (List X → List X) → Store X → Store X
  change col f d = record d { rows = λ c. if str_eq c col then f (d.rows c) else d.rows c }

  abbrev pub store_mongo : Mongo (Store X) X
  store_mongo = record {
    bulk_write = λ col ms d. ok (inserted (λ x. true) ms, change col (apply_all ms) d);
    drop_collection = λ col d. ok (change col (λ xs. []) d);
    set_last_block_info = λ h d. ok (record d { info = some h });
    last_block_info = λ d. ok d.info;
    create_indexes = λ d. ok d;
    new_connection = λ d. ok d;
  }

  abbrev pub store_contents : Contents (Store X) X
  store_contents = record {
    count = λ p c d. count_rows p (d.rows c);
    field = field;
    meets = meets_value;
    matches = matches_row;
  }

  count-apply :
      (p : X → Bool) (ms : List (WriteModel X)) (xs : List X)
      → All IsInsert ms
      → count_rows p (apply_all ms xs) ≡ count_rows p xs + inserted p ms
  unfolding count_rows apply_all
  count-apply p [] xs h = omega arith
  count-apply p (insert_one x ∷ ms) xs h = grind (arith, count-apply p ms (x ∷ xs) h.1)
  count-apply p (delete_many f ∷ ms) xs h = absurd h.0

  count-delete :
      (p : X → Bool) (f : Filter) (xs : List X)
      → count_rows p (delete_rows f xs) ≡ count_rows (λ x. p x && not (matches_row f x)) xs
  unfolding count_rows delete_rows
  count-delete p f [] = refl
  count-delete p f (x ∷ xs) = grind (arith, count-delete p f xs)

  any_row-match : (fs : Filters) (x : X) → any_row fs x ≡ match_any store_contents fs x
  unfolding any_row
  any_row-match no_filters x = refl
  any_row-match (filter f fs) x = ap (λ b. matches_row f x || b) (any_row-match fs x)

  all_rows-match : (fs : Filters) (x : X) → all_rows fs x ≡ match_all store_contents fs x
  unfolding all_rows
  all_rows-match no_filters x = refl
  all_rows-match (filter f fs) x = ap (λ b. matches_row f x && b) (all_rows-match fs x)

  pub store_queries : QueryLaws store_contents
  unfolding matches_row
  store_queries = record {
    match_anything = λ x. refl;
    match_entry = λ k c f x v e. ap (λ o. meets_field c o && matches_row f x) e;
    match_any_of = λ fs f x. ap (λ b. b && matches_row f x) (any_row-match fs x);
    match_all_of = λ fs f x. ap (λ b. b && matches_row f x) (all_rows-match fs x);
    meets_among = λ x xs. refl;
    meets_text = λ x y. refl;
    meets_above = λ o h. refl;
    meets_below = λ o h. refl;
    meets_height = λ o h. refl;
    meets_at_least = λ o h. refl;
    meets_at_most = λ o h. refl;
    meets_above_index = λ o n. refl;
    meets_below_index = λ o n. refl;
  }

  inserted_where :
      (b : Bool) (p : X → Bool) (ms : List (WriteModel X)) (xs : List X)
      → All IsInsert ms
      → count_rows p (if b then apply_all ms xs else xs)
        ≡ count_rows p xs + (if b then inserted p ms else 0)
  inserted_where true p ms xs h = count-apply p ms xs h
  inserted_where false p ms xs h = omega arith

  deleted_where :
      (b : Bool) (p : X → Bool) (f : Filter) (xs : List X)
      → count_rows p (if b then apply_all (delete_many f ∷ []) xs else xs)
        ≡ count_rows (λ x. if b then p x && not (matches_row f x) else p x) xs
  unfolding apply_all
  deleted_where true p f xs = count-delete p f xs
  deleted_where false p f xs = refl

  dropped_where :
      (b : Bool) (p : X → Bool) (xs : List X)
      → count_rows p (if b then [] else xs) ≡ (if b then 0 else count_rows p xs)
  unfolding count_rows
  dropped_where true p xs = refl
  dropped_where false p xs = refl

  count_of : (X → Bool) → String → Store X → ℕ
  count_of p c d = count_rows p (d.rows c)

  pub store_laws : StoreLaws store_mongo store_contents
  unfolding change count_of
  store_laws = record {
    insert_counts = λ col ms d d' n h e p c.
        ap (λ q. count_of p c q.1) (sym (ok-injective e))
        ∙ inserted_where (str_eq c col) p ms (d.rows c) h;
    delete_counts = λ col f d d' n e p c.
        ap (λ q. count_of p c q.1) (sym (ok-injective e))
        ∙ deleted_where (str_eq c col) p f (d.rows c);
    drop_counts = λ col d d' e p c.
        ap (count_of p c) (sym (ok-injective e)) ∙ dropped_where (str_eq c col) p (d.rows c);
    info_counts = λ h d d' e p c. ap (count_of p c) (sym (ok-injective e));
    info_kept = λ h d d' e. ap (λ x. ok x.info) (sym (ok-injective e));
  }
