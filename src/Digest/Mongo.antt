-- ===== src/Digest/Mongo.antt =====
-- The MongoDB client, a parameter: the queries that the digest builds, the writes that it asks for, and
-- the documented behaviour that the theorems rely on.
use Prim.Native.String.{String}
use package.text.Mathlib.Text.{◌==◌ as str_eq}
use mitum_data_blocksign.Prelude.{
  ℕ, suc, ◌+◌, All, if◌then◌else◌, ℤ, ltb_ℤ, ltb, Bytes, bytes_eq, Bool, true, false, not, ◌&&◌,
  ◌||◌, Option, some, List, [], ◌∷◌, any, ◌≡◌, ok,
}
use mitum_data_blocksign.Mitum.{Outcome}

-- The values of fields that queries compare
pub data Value : Type 0 where
  text : Bytes → Value
  texts : List Bytes → Value
  height : ℤ → Value
  index : ℕ → Value

-- `$in`, `$nin`, `$gt`, `$gte`, `$lt`, `$lte`, and `$eq` or the value alone
pub data Condition : Type 0 where
  among not_among : List Bytes → Condition
  above at_least below at_most equals : Value → Condition

-- A `bson.M` or `bson.D`: all of its entries hold. The entries `$or` and `$and` are `any_of`, `all_of`.
mutual
  pub data Filter : Type 0 where
    anything : Filter
    entry : String → Condition → Filter → Filter
    any_of all_of : Filters → Filter → Filter

  pub data Filters : Type 0 where
    no_filters : Filters
    filter : Filter → Filters → Filters

pub data WriteModel (Doc : Type 0) : Type 0 where
  insert_one : Doc → WriteModel Doc
  delete_many : Filter → WriteModel Doc

-- `D` is a database, `Doc` what it stores. A call that fails says nothing of the database after it.
pub record Mongo (D Doc : Type 0) : Type 0 where
  -- `BulkWrite`, with the number of inserted documents
  pub bulk_write : String → List (WriteModel Doc) → D → Outcome (ℕ × D)
  -- `Collection(col).Drop`
  pub drop_collection : String → D → Outcome D
  -- `SetInfo` and `Info` of the key of the last block
  pub set_last_block_info : ℤ → D → Outcome D
  pub last_block_info : D → Outcome (Option ℤ)
  -- `CreateIndex` for all collections, and `New`: another connection
  pub create_indexes : D → Outcome D
  pub new_connection : D → Outcome D

-- How many documents of a collection pass a test, and when a document matches.
pub record Contents (D Doc : Type 0) : Type 0 where
  pub count : (Doc → Bool) → String → D → ℕ
  pub field : String → Doc → Option Value
  pub meets : Condition → Value → Bool
  pub matches : Filter → Doc → Bool

abbrev pub has_text : Bytes → List Bytes → Bool
has_text x = any (bytes_eq x)

module _ {D Doc : Type 0} (m : Contents D Doc) where
  abbrev pub match_any : Filters → Doc → Bool
  match_any no_filters doc = false
  match_any (filter f fs) doc = m.matches f doc || match_any fs doc

  abbrev pub match_all : Filters → Doc → Bool
  match_all no_filters doc = true
  match_all (filter f fs) doc = m.matches f doc && match_all fs doc

-- The query language of MongoDB, as far as the digest uses it
pub record QueryLaws {D Doc : Type 0} (m : Contents D Doc) : Type 0 where
  pub match_anything : (doc : Doc) → m.matches anything doc ≡ true
  pub match_entry :
      (k : String) (c : Condition) (f : Filter) (doc : Doc) (v : Value)
      → m.field k doc ≡ some v
      → m.matches (entry k c f) doc ≡ (m.meets c v && m.matches f doc)
  pub match_any_of :
      (fs : Filters) (f : Filter) (doc : Doc)
      → m.matches (any_of fs f) doc ≡ (match_any m fs doc && m.matches f doc)
  pub match_all_of :
      (fs : Filters) (f : Filter) (doc : Doc)
      → m.matches (all_of fs f) doc ≡ (match_all m fs doc && m.matches f doc)
  pub meets_among :
      (x : Bytes) (xs : List Bytes) → m.meets (among (x ∷ [])) (texts xs) ≡ has_text x xs
  pub meets_text : (x y : Bytes) → m.meets (equals (text x)) (text y) ≡ bytes_eq x y
  pub meets_above : (o h : ℤ) → m.meets (above (height o)) (height h) ≡ ltb_ℤ o h
  pub meets_below : (o h : ℤ) → m.meets (below (height o)) (height h) ≡ ltb_ℤ h o
  pub meets_height :
      (o h : ℤ) → m.meets (equals (height o)) (height h) ≡ (not (ltb_ℤ o h) && not (ltb_ℤ h o))
  pub meets_at_least : (o h : ℤ) → m.meets (at_least (height o)) (height h) ≡ not (ltb_ℤ h o)
  pub meets_at_most : (o h : ℤ) → m.meets (at_most (height o)) (height h) ≡ not (ltb_ℤ o h)
  pub meets_above_index : (o n : ℕ) → m.meets (above (index o)) (index n) ≡ ltb o n
  pub meets_below_index : (o n : ℕ) → m.meets (below (index o)) (index n) ≡ ltb n o

-- How many of the inserted documents pass a test
abbrev pub inserted : {Doc : Type 0} → (Doc → Bool) → List (WriteModel Doc) → ℕ
inserted p [] = 0
inserted p (insert_one x ∷ ms) = if p x then suc (inserted p ms) else inserted p ms
inserted p (delete_many f ∷ ms) = inserted p ms

abbrev pub IsInsert : {Doc : Type 0} → WriteModel Doc → Type 0
IsInsert (insert_one x) = Unit
IsInsert (delete_many f) = ⊥

-- What a call that returns no error did to the collections
pub record StoreLaws {D Doc : Type 0} (mongo : Mongo D Doc) (m : Contents D Doc) : Type 0 where
  pub insert_counts :
      (col : String) (ms : List (WriteModel Doc)) (d d' : D) (n : ℕ)
      → All IsInsert ms
      → mongo.bulk_write col ms d ≡ ok (n, d')
      → (p : Doc → Bool) (c : String)
      → m.count p c d' ≡ m.count p c d + (if str_eq c col then inserted p ms else 0)
  pub delete_counts :
      (col : String) (f : Filter) (d d' : D) (n : ℕ)
      → mongo.bulk_write col (delete_many f ∷ []) d ≡ ok (n, d')
      → (p : Doc → Bool) (c : String)
      → m.count p c d' ≡ m.count (λ x. if str_eq c col then p x && not (m.matches f x) else p x) c d
  pub drop_counts :
      (col : String) (d d' : D)
      → mongo.drop_collection col d ≡ ok d'
      → (p : Doc → Bool) (c : String) → m.count p c d' ≡ (if str_eq c col then 0 else m.count p c d)
  pub info_counts :
      (h : ℤ) (d d' : D)
      → mongo.set_last_block_info h d ≡ ok d'
      → (p : Doc → Bool) (c : String) → m.count p c d' ≡ m.count p c d
  pub info_kept :
      (h : ℤ) (d d' : D)
      → mongo.set_last_block_info h d ≡ ok d'
      → mongo.last_block_info d' ≡ ok (some h)
