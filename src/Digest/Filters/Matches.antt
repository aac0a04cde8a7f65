-- ===== src/Digest/Filters/Matches.antt =====
-- What the filters of operations and documents select.
use mitum_data_blocksign.Prelude.{
  sym, ◌∙◌, arith, ℕ, ℤ, Bytes, ltb, length, Bool, true, false, ◌&&◌, ◌||◌, Option, none, some,
  List, [], ◌∷◌, ◌++◌, ok, ◌≡◌, refl,
}
use mitum_data_blocksign.Mitum.{Addresses}
use mitum_data_blocksign.Digest.Mongo.{
  text, texts, height, index, Condition, among, above, below, equals, Filter, anything, entry,
  any_of, all_of, Contents, QueryLaws, has_text,
}
use mitum_data_blocksign.Digest.Offsets.{
  comma, Numbers, NumbersLaws, build_offset, parse_offset-build,
}
use mitum_data_blocksign.Digest.Filters.{
  filters, doctype_filters, and_filter, related, build_documents_filter_by_address,
  build_documents_filter_by_offset, build_documents_by_height_filter, next_operations,
  build_operations_filter_by_address,
}
use mitum_data_blocksign.Digest.Filters.Lists.{
  follows, of_type, same_height, comes_after, height_offset, operation_offset, Indexed, and_true,
  match_list, match_list-append, matches-and_filter, matches-entry, match_list-entry, next_matches,
  doctype_matches, offset_matches,
}

nonempty_append : (xs : Bytes) (y : ℕ) (ys : Bytes) → ltb 0 (length (xs ++ y ∷ ys)) ≡ true
nonempty_append [] y ys = ground arith
nonempty_append (x ∷ xs) y ys = ground arith

operation_offset-nonempty :
    (n : Numbers) (o : ℤ) (u : ℕ) → ltb 0 (length (build_offset n o u)) ≡ true
unfolding build_offset
operation_offset-nonempty n o u = nonempty_append (n.height_text o) comma (n.uint_text u)

module _ {A D Doc : Type 0} ⦃a : Addresses A⦄ (n : Numbers) (numbers : NumbersLaws n)
    (m : Contents D Doc) (laws : QueryLaws m) where
  -- The filters of documents are built for every offset that the digest itself hands out, and they
  -- select the documents of the address, of the type where there is one, and of the heights that
  -- follow the offset in the order asked for, or of the one height.
  pub documents_selected :
      (address : A) (offset : Option ℤ) (reverse : Bool) (doctype : Bytes) (doc : Doc)
      (xs : List Bytes) (t : Bytes) (h o : ℤ)
      → m.field "addresses" doc ≡ some (texts xs)
      → m.field "doctype" doc ≡ some (text t)
      → m.field "height" doc ≡ some (height h)
      → ((f : Filter) × (build_documents_filter_by_address n address
              (height_offset n offset)
              reverse
              doctype
            ≡ ok f)
          × (m.matches f doc ≡ (
              has_text (a.address_string address) xs
              && (of_type doctype t && follows reverse offset h))))
        × ((f : Filter) × (build_documents_filter_by_offset n
                (height_offset n offset)
                reverse
                doctype
              ≡ ok f)
            × (m.matches f doc ≡ (of_type doctype t && follows reverse offset h)))
        × ((f : Filter) × (build_documents_by_height_filter o reverse doctype ≡ ok f)
            × (m.matches f doc ≡ (same_height o h && of_type doctype t)))
  unfolding build_documents_filter_by_address build_documents_filter_by_offset
      build_documents_by_height_filter related
  documents_selected address offset reverse doctype doc xs t h o ea et eh =
      let (os, built, passed) = offset_matches m laws doc n numbers offset reverse h eh in
      let typed = doctype_matches m laws doc doctype t et in
      let both : match_list m laws doc (doctype_filters doctype ++ os)
          ≡ (of_type doctype t && follows reverse offset h) =
        rw (match_list-append m laws doc (doctype_filters doctype) os, typed, passed) refl in
      let addressed = among (a.address_string address ∷ []) in
      let at_height = equals (height o) in
      (
        (
          and_filter (entry "addresses" addressed anything ∷ doctype_filters doctype ++ os),
          rw built refl,
          matches-and_filter m laws doc
                (entry "addresses" addressed anything ∷ doctype_filters doctype ++ os)
              ∙ match_list-entry m laws doc "addresses" addressed (texts xs)
                  (doctype_filters doctype ++ os) ea
              ∙ rw (laws.meets_among (a.address_string address) xs, both) refl,
        ),
        (
          and_filter (doctype_filters doctype ++ os),
          rw built refl,
          matches-and_filter m laws doc (doctype_filters doctype ++ os) ∙ both,
        ),
        (
          and_filter (entry "height" at_height anything ∷ doctype_filters doctype),
          refl,
          matches-and_filter m laws doc
                (entry "height" at_height anything ∷ doctype_filters doctype)
              ∙ match_list-entry m laws doc "height" at_height (height h) (doctype_filters doctype)
                  eh
              ∙ rw (laws.meets_height o h, typed) refl,
        ),
      )

  selects :
      (address : A) (doc : Doc) (xs : List Bytes) (h o : ℤ) (u : ℕ) (c d : Condition)
      → m.field "addresses" doc ≡ some (texts xs)
      → m.field "height" doc ≡ some (height h)
      → m.field "index" doc ≡ some (index u)
      → m.matches
          (related address (
            any_of
              (filters (
                entry "height" c anything
                ∷ all_of
                    (filters
                      (entry "height" (equals (height o)) anything ∷ entry "index" d anything ∷ []))
                    anything
                ∷ []))
              anything))
          doc
        ≡ (has_text (a.address_string address) xs
            && (m.meets c (height h) || (same_height o h && m.meets d (index u))))
  unfolding related
  selects address doc xs h o u c d ea eh eu =
      let nexts = filters (
        entry "height" c anything
        ∷ all_of
            (filters (entry "height" (equals (height o)) anything ∷ entry "index" d anything ∷ []))
            anything
        ∷ []) in
      laws.match_entry "addresses" (among (a.address_string address ∷ [])) (any_of nexts anything)
        doc (texts xs) ea
      ∙ rw
          (
            laws.meets_among (a.address_string address) xs,
            laws.match_any_of nexts anything doc,
            laws.match_anything doc,
            next_matches m laws doc c d o h u eh eu,
            and_true (m.meets c (height h) || (same_height o h && m.meets d (index u))),
          )
          refl

  -- The filter of operations is built for every offset that the digest itself hands out, and it selects
  -- the operations of the address that come after the offset by height and then by index, or before
  -- it where the order is reversed.
  pub operations_selected :
      (address : A) (offset : Option (ℤ × ℕ)) (reverse : Bool) (doc : Doc) (xs : List Bytes) (h : ℤ)
      (u : ℕ)
      → m.field "addresses" doc ≡ some (texts xs)
      → m.field "height" doc ≡ some (height h)
      → m.field "index" doc ≡ some (index u)
      → Indexed offset
      → (f : Filter) × (build_operations_filter_by_address n address
            (operation_offset n offset)
            reverse
          ≡ ok f)
        × (m.matches f doc
            ≡ (has_text (a.address_string address) xs && comes_after reverse offset h u))
  unfolding build_operations_filter_by_address related next_operations
  operations_selected address none reverse doc xs h u ea eh eu l = (
    related address anything,
    refl,
    matches-entry m laws doc "addresses" (among (a.address_string address ∷ [])) (texts xs) ea
        ∙ laws.meets_among (a.address_string address) xs
        ∙ sym (and_true (has_text (a.address_string address) xs)),
  )
  operations_selected address (some (o, v)) false doc xs h u ea eh eu l = (
    related address (any_of (filters (next_operations false o v)) anything),
    rw (operation_offset-nonempty n o v, (parse_offset-build n numbers o v [] l).0) refl,
    selects address doc xs h o u (above (height o)) (above (index v)) ea eh eu
        ∙ rw (laws.meets_above o h, laws.meets_above_index v u) refl,
  )
  operations_selected address (some (o, v)) true doc xs h u ea eh eu l = (
    related address (any_of (filters (next_operations true o v)) anything),
    rw (operation_offset-nonempty n o v, (parse_offset-build n numbers o v [] l).0) refl,
    selects address doc xs h o u (below (height o)) (below (index v)) ea eh eu
        ∙ rw (laws.meets_below o h, laws.meets_below_index v u) refl,
  )
