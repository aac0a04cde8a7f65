-- ===== src/Digest/Filters/Lists.antt =====
-- Filters that are lists of entries, and what each entry matches.
use Prim.Native.String.{String}
use mitum_data_blocksign.Prelude.{
  sym, ap, ◌∙◌, arith, ℕ, ℤ, ltb_ℤ, Bytes, bytes_eq, ltb, length, Bool, true, false, not, ◌&&◌,
  ◌||◌, Option, none, some, List, [], ◌∷◌, ◌++◌, if◌then◌else◌, ok, ◌≡◌, refl, Bool-cases, inl, inr,
}
use mitum_data_blocksign.Digest.Mongo.{
  Value, text, height, index, Condition, above, below, equals, Filter, anything, entry, all_of,
  Contents, QueryLaws, match_any, match_all,
}
use mitum_data_blocksign.Digest.Offsets.{
  Numbers, NumbersLaws, build_offset, parse_offset_height, build_offset_height,
}
use mitum_data_blocksign.Digest.Filters.{filters, doctype_filters, offset_filters, and_filter}

-- The next page from a height: higher ones, or lower ones where the order is reversed.
abbrev pub follows : Bool → Option ℤ → ℤ → Bool
follows reverse none h = true
follows false (some o) h = ltb_ℤ o h
follows true (some o) h = ltb_ℤ h o

abbrev pub of_type : Bytes → Bytes → Bool
of_type doctype t = if ltb 0 (length doctype) then bytes_eq doctype t else true

abbrev pub same_height : ℤ → ℤ → Bool
same_height o h = not (ltb_ℤ o h) && not (ltb_ℤ h o)

-- The next page from an operation: by height, then by index.
abbrev pub comes_after : Bool → Option (ℤ × ℕ) → ℤ → ℕ → Bool
comes_after reverse none h n = true
comes_after false (some (o, u)) h n = ltb_ℤ o h || (same_height o h && ltb u n)
comes_after true (some (o, u)) h n = ltb_ℤ h o || (same_height o h && ltb n u)

-- The text that a client sends back as the offset
abbrev pub height_offset : Numbers → Option ℤ → Bytes
height_offset n none = []
height_offset n (some o) = build_offset_height n o

abbrev pub operation_offset : Numbers → Option (ℤ × ℕ) → Bytes
operation_offset n none = []
operation_offset n (some (o, u)) = build_offset n o u

-- The index of an offset has 64 bits.
abbrev pub Indexed : Option (ℤ × ℕ) → Type 0
Indexed none = Unit
Indexed (some (o, u)) = ltb u 18446744073709551616 ≡ true

pub and_true : (b : Bool) → (b && true) ≡ b
and_true true = refl
and_true false = refl

and_assoc : (b c d : Bool) → ((b && c) && d) ≡ (b && (c && d))
and_assoc true c d = refl
and_assoc false c d = refl

or_false : (b : Bool) → (b || false) ≡ b
or_false true = refl
or_false false = refl

module _ {D Doc : Type 0} (m : Contents D Doc) (laws : QueryLaws m) (doc : Doc) where
  -- All filters of a list match.
  abbrev pub match_list : List Filter → Bool
  match_list [] = true
  match_list (f ∷ fs) = m.matches f doc && match_list fs

  match_all-filters : (fs : List Filter) → match_all m (filters fs) doc ≡ match_list fs
  match_all-filters [] = refl
  match_all-filters (f ∷ fs) = ap (λ b. m.matches f doc && b) (match_all-filters fs)

  pub match_list-append :
      (fs gs : List Filter) → match_list (fs ++ gs) ≡ (match_list fs && match_list gs)
  match_list-append [] gs = refl
  match_list-append (f ∷ fs) gs =
      rw (match_list-append fs gs)
        (sym (and_assoc (m.matches f doc) (match_list fs) (match_list gs)))

  pub matches-and_filter : (fs : List Filter) → m.matches (and_filter fs) doc ≡ match_list fs
  unfolding and_filter
  matches-and_filter [] = laws.match_anything doc
  matches-and_filter (f ∷ fs) =
      let nonempty : ltb 0 (length (f ∷ fs)) ≡ true = ground arith in
      rw
        (
          nonempty,
          laws.match_all_of (filters (f ∷ fs)) anything doc,
          laws.match_anything doc,
          match_all-filters fs,
        )
        (and_true (match_list (f ∷ fs)))

  pub matches-entry :
      (k : String) (c : Condition) (v : Value)
      → m.field k doc ≡ some v
      → m.matches (entry k c anything) doc ≡ m.meets c v
  matches-entry k c v e =
      rw (laws.match_entry k c anything doc v e, laws.match_anything doc) (and_true (m.meets c v))

  pub match_list-entry :
      (k : String) (c : Condition) (v : Value) (fs : List Filter)
      → m.field k doc ≡ some v
      → match_list (entry k c anything ∷ fs) ≡ (m.meets c v && match_list fs)
  match_list-entry k c v fs e = rw (matches-entry k c v e) refl

  match_list-one :
      (k : String) (c : Condition) (v : Value)
      → m.field k doc ≡ some v
      → match_list (entry k c anything ∷ []) ≡ m.meets c v
  match_list-one k c v e = match_list-entry k c v [] e ∙ and_true (m.meets c v)

  pub next_matches :
      (c d : Condition) (o h : ℤ) (u : ℕ)
      → m.field "height" doc ≡ some (height h)
      → m.field "index" doc ≡ some (index u)
      → match_any m
          (filters (
            entry "height" c anything
            ∷ all_of
                (filters
                  (entry "height" (equals (height o)) anything ∷ entry "index" d anything ∷ []))
                anything
            ∷ []))
          doc
        ≡ (m.meets c (height h) || (same_height o h && m.meets d (index u)))
  next_matches c d o h u eh eu =
      let both = entry "height" (equals (height o)) anything ∷ entry "index" d anything ∷ [] in
      rw
        (
          laws.match_all_of (filters both) anything doc,
          laws.match_anything doc,
          match_all-filters both,
          matches-entry "height" c (height h) eh,
          matches-entry "height" (equals (height o)) (height h) eh,
          matches-entry "index" d (index u) eu,
          laws.meets_height o h,
          and_true (m.meets d (index u)),
          and_true (same_height o h && m.meets d (index u)),
          or_false (same_height o h && m.meets d (index u)),
        )
        refl

  pub doctype_matches :
      (doctype t : Bytes)
      → m.field "doctype" doc ≡ some (text t)
      → match_list (doctype_filters doctype) ≡ of_type doctype t
  unfolding doctype_filters
  doctype_matches doctype t e = elim (Bool-cases (ltb 0 (length doctype))) [
    | inl given ↦
        rw given
          (match_list-one "doctype" (equals (text doctype)) (text t) e ∙ laws.meets_text doctype t)
    | inr absent ↦ rw absent refl
  ]

  pub offset_matches :
      (n : Numbers) (numbers : NumbersLaws n) (offset : Option ℤ) (reverse : Bool) (h : ℤ)
      → m.field "height" doc ≡ some (height h)
      → (os : List Filter) × (offset_filters n (height_offset n offset) reverse ≡ ok os)
        × (match_list os ≡ follows reverse offset h)
  unfolding offset_filters parse_offset_height build_offset_height
  offset_matches n numbers none reverse h e = ([], refl, refl)
  offset_matches n numbers (some o) false h e = (
    entry "height" (above (height o)) anything ∷ [],
    rw (numbers.height_nonempty o, numbers.read_height o) refl,
    match_list-one "height" (above (height o)) (height h) e ∙ laws.meets_above o h,
  )
  offset_matches n numbers (some o) true h e = (
    entry "height" (below (height o)) anything ∷ [],
    rw (numbers.height_nonempty o, numbers.read_height o) refl,
    match_list-one "height" (below (height o)) (height h) e ∙ laws.meets_below o h,
  )
