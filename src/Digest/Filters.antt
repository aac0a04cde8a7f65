-- ===== src/Digest/Filters.antt =====
-- The filters of digest/database.go.
pub mod Lists
pub mod Matches
use mitum_data_blocksign.Prelude.{
  ℕ, ℤ, Bytes, ltb, length, Bool, List, [], ◌∷◌, ◌++◌, if◌then◌else◌, ok, err, ◌>>=◌,
}
use mitum_data_blocksign.Mitum.{Outcome, Addresses}
use mitum_data_blocksign.Digest.Mongo.{
  text, height, index, among, above, below, equals, at_least, at_most, Filter, anything, entry,
  any_of, all_of, Filters, no_filters, filter,
}
use mitum_data_blocksign.Digest.Offsets.{Numbers, parse_offset, parse_offset_height}

-- `bson.A`, which grows at its end
abbrev pub filters : List Filter → Filters
filters [] = no_filters
filters (f ∷ fs) = filter f (filters fs)

-- Of the type only, where there is one
unfoldable pub doctype_filters : Bytes → List Filter
doctype_filters doctype =
    if ltb 0 (length doctype) then entry "doctype" (equals (text doctype)) anything ∷ [] else []

unfoldable pub offset_filters : Numbers → Bytes → Bool → Outcome (List Filter)
offset_filters n offset reverse =
    if ltb 0 (length offset)
    then (parse_offset_height n offset >>= λ o.
        ok (entry "height" (if reverse then below (height o) else above (height o)) anything ∷ []))
    else ok []

-- `bson.D{}` where there is nothing to hold
unfoldable pub and_filter : List Filter → Filter
and_filter fs = if ltb 0 (length fs) then all_of (filters fs) anything else anything

-- The two filters of `$or`: another height, or the height with another index
unfoldable pub next_operations : Bool → ℤ → ℕ → List Filter
next_operations reverse h u =
    if reverse
    then entry "height" (below (height h)) anything
      ∷ all_of
          (filters (
            entry "height" (equals (height h)) anything
            ∷ entry "index" (below (index u)) anything
            ∷ []))
          anything
      ∷ []
    else entry "height" (above (height h)) anything
      ∷ all_of
          (filters (
            entry "height" (equals (height h)) anything
            ∷ entry "index" (above (index u)) anything
            ∷ []))
          anything
      ∷ []

module _ {A : Type 0} ⦃a : Addresses A⦄ where
  unfoldable pub related : A → Filter → Filter
  related address = entry "addresses" (among (a.address_string address ∷ []))

module _ {A : Type 0} ⦃a : Addresses A⦄ (n : Numbers) where
  unfoldable pub build_documents_filter_by_address : A → Bytes → Bool → Bytes → Outcome Filter
  build_documents_filter_by_address address offset reverse doctype = do
    os ← offset_filters n offset reverse
    ok (and_filter (related address anything ∷ doctype_filters doctype ++ os))

  -- The entries `addresses` and, for an offset, `$or`
  unfoldable pub build_operations_filter_by_address : A → Bytes → Bool → Outcome Filter
  build_operations_filter_by_address address offset reverse =
      if ltb 0 (length offset)
      then (parse_offset n offset >>= λ o.
          ok (related address (any_of (filters (next_operations reverse o.0 o.1)) anything)))
      else ok (related address anything)

unfoldable pub build_documents_filter_by_offset : Numbers → Bytes → Bool → Bytes → Outcome Filter
build_documents_filter_by_offset n offset reverse doctype = do
  os ← offset_filters n offset reverse
  ok (and_filter (doctype_filters doctype ++ os))

unfoldable pub build_documents_by_height_filter : ℤ → Bool → Bytes → Outcome Filter
build_documents_by_height_filter h reverse doctype =
    ok (and_filter (entry "height" (equals (height h)) anything ∷ doctype_filters doctype))

unfoldable pub build_accounts_filter_by_publickey : Bytes → Filter
build_accounts_filter_by_publickey pub_string = entry "pubs" (among (pub_string ∷ [])) anything
