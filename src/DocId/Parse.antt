-- ===== src/DocId/Parse.antt =====
-- What `ParseDocId`, `NewDocId` and `IsValid` of document/document_id.go accept.
use Prim.Native.String.{String}
use mitum_data_blocksign.Prelude.{
  Bytes, bytes_eq, bytes_eq_iff, ◌≡◌, sym, ap, subst, ◌↔◌, inl, inr, false, some, List, [], ◌∷◌,
  ◌++◌, ◌-◌, ◌<◌, length, take, drop, length-append, length-drop, take-append-drop,
  take-append_length, drop-append_length, Bool-cases, leb, ok, arith, All,
}
use mitum_data_blocksign.DocId.{doc_id_short_type_map, find_type, parse_short_type, parse_doc_id}

-- An id: a body that is not empty, and a short type that stands for `ty`.
pub record Splits (s b : Bytes) (ty : String) : Type 0 where
  pub short : Bytes
  pub known : find_type short doc_id_short_type_map ≡ some ty
  pub body : 0 < length b
  pub joined : s ≡ b ++ short

find_type-length :
    (k : Bytes) (ty : String) (m : List (Bytes × String))
    → All (λ e. length e.0 ≡ 3) m
    → find_type k m ≡ some ty
    → length k ≡ 3
unfolding find_type
find_type-length k ty [] a h = cc
find_type-length k ty ((j, v) ∷ m) a h = elim (Bool-cases (bytes_eq j k)) [
  | inl same ↦ subst (λ c. length c ≡ 3) ((bytes_eq_iff j k).0 same) a.0
  | inr other ↦ find_type-length k ty m a.1 (rw other at h)
]

-- The short types that the map knows have three bytes.
known_length :
    (k : Bytes) (ty : String) → find_type k doc_id_short_type_map ≡ some ty → length k ≡ 3
known_length k ty h = find_type-length k ty doc_id_short_type_map (omega arith) h

parse_short_type_sound :
    (body k b : Bytes) (ty : String)
    → parse_short_type body k ≡ ok (b, ty)
    → (body ≡ b) × (find_type k doc_id_short_type_map ≡ some ty)
unfolding parse_short_type
parse_short_type_sound body k b ty h = ground arith

parse_short_type_complete :
    (body k : Bytes) (ty : String)
    → find_type k doc_id_short_type_map ≡ some ty
    → parse_short_type body k ≡ ok (body, ty)
unfolding parse_short_type
parse_short_type_complete body k ty h = ground (arith, known_length k ty h)

-- The part before the short type of an id of more than three bytes is not empty.
length-take_split : (s : Bytes) → leb (length s) 3 ≡ false → 0 < length (take (length s - 3) s)
length-take_split s h = ground (
  arith,
  ap length (take-append-drop (length s - 3) s),
  length-append (take (length s - 3) s) (drop (length s - 3) s),
  length-drop (length s - 3) s,
)

parse_doc_id_sound : (s b : Bytes) (ty : String) → parse_doc_id s ≡ ok (b, ty) → Splits s b ty
unfolding parse_doc_id
parse_doc_id_sound s b ty h = elim (Bool-cases (leb (length s) 3)) [
  | inl small ↦ cc (rw small at h)
  | inr long ↦
      let split = length s - 3 in
      let (cut, known) = parse_short_type_sound (take split s) (drop split s) b ty (rw long at h) in
      record {
        short = drop split s;
        known = known;
        body = rw (← cut) (length-take_split s long);
        joined = rw (← cut) (sym (take-append-drop split s));
      }
]

parse_append :
    (b k : Bytes) (ty : String)
    → find_type k doc_id_short_type_map ≡ some ty
    → 0 < length b
    → parse_doc_id (b ++ k) ≡ ok (b, ty)
unfolding parse_doc_id
parse_append b k ty known body =
    let split : length (b ++ k) - 3 ≡ length b =
      omega (arith, length-append b k, known_length k ty known) in
    let long : leb (length (b ++ k)) 3 ≡ false =
      ground (arith, length-append b k, known_length k ty known) in
    rw (long, split, take-append_length b k, drop-append_length b k)
      (parse_short_type_complete b k ty known)

parse_doc_id_complete : (s b : Bytes) (ty : String) → Splits s b ty → parse_doc_id s ≡ ok (b, ty)
parse_doc_id_complete s b ty h = rw (h.joined) (parse_append b h.short ty h.known h.body)

-- `ParseDocId` returns a body and a type exactly for the ids that join a non-empty body and a known
-- short type.
pub parse_doc_id_iff : (s b : Bytes) (ty : String) → (parse_doc_id s ≡ ok (b, ty)) ↔ Splits s b ty
parse_doc_id_iff s b ty = (parse_doc_id_sound s b ty, parse_doc_id_complete s b ty)
