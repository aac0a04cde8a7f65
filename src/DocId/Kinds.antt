-- ===== src/DocId/Kinds.antt =====
-- The kinds of document id: what `NewDocId` builds, what `IsValid` checks and when ids are equal.
use Prim.Native.String.{String}
use text.Mathlib.TextEquality.{eq_iff}
use mitum_data_blocksign.Prelude.{
  Bytes, bytes_eq, bytes_eq_iff, ap, sym, ◌∙◌, ◌≡◌, refl, ◌↔◌, ◌⊎◌, inl, inr, true, false, none,
  some, List, [], ◌∷◌, Bool-cases, Result-cases, All, ◌≢◌, ok, err, panic, arith,
}
use mitum_data_blocksign.Error.{Error}
use mitum_data_blocksign.Mitum.{Hint, new_hint}
use mitum_data_blocksign.DocId.{
  DocId, DocIdKind, bs, user, land, voting, history, doc_id_type, doc_id_short_type_map, find_type,
  parse_short_type, parse_doc_id, kind_of_type, new_kind_doc_id, new_doc_id, is_valid, is_zero,
  equal, argument_kind,
}
use mitum_data_blocksign.DocId.Parse.{parse_doc_id_iff}

find_type-All :
    (P : String → Type 0) (k : Bytes) (ty : String) (m : List (Bytes × String))
    → All (λ e. P e.1) m
    → find_type k m ≡ some ty
    → P ty
unfolding find_type
find_type-All P k ty [] a h = cc
find_type-All P k ty ((j, v) ∷ m) a h = elim (Bool-cases (bytes_eq j k)) [
  | inl same ↦ let e : v ≡ ty = ground arith in rw (← e) a.0
  | inr other ↦ find_type-All P k ty m a.1 (rw other at h)
]

abbrev HasKind : String → Type 0
HasKind ty = (k : DocIdKind) × (kind_of_type ty ≡ some k) × (doc_id_type k ≡ ty)

-- Each type of the map is the type of one kind.
known_kind : (k : Bytes) (ty : String) → find_type k doc_id_short_type_map ≡ some ty → HasKind ty
unfolding kind_of_type
known_kind k ty h =
    find_type-All HasKind k ty doc_id_short_type_map
      (
        (bs, refl, refl),
        (
          (user, refl, refl),
          ((land, refl, refl), ((voting, refl, refl), ((history, refl, refl), tt))),
        ),
      )
      h

-- What `NewDocId` makes of an id.
pub record Builds (s : Bytes) (d : DocId) : Type 0 where
  pub body : Bytes
  pub ty : String
  pub parses : parse_doc_id s ≡ ok (body, ty)
  pub typed : doc_id_type d.kind ≡ ty
  pub built : d ≡ new_kind_doc_id d.kind s

abbrev pub NewCases : Bytes → Type 0
NewCases s =
    ((d : DocId) × Builds s d × (new_doc_id s ≡ some d))
    ⊎ ((e : Error) × (parse_doc_id s ≡ err e) × (new_doc_id s ≡ none))

parse_doc_id-ne-panic : (s : Bytes) → parse_doc_id s ≢ panic
unfolding parse_doc_id parse_short_type
parse_doc_id-ne-panic s = ground arith

new_doc_id_of_parse :
    (s b : Bytes) (ty : String) (k : DocIdKind)
    → parse_doc_id s ≡ ok (b, ty)
    → kind_of_type ty ≡ some k
    → new_doc_id s ≡ some (new_kind_doc_id k s)
unfolding new_doc_id
new_doc_id_of_parse s b ty k parses known = ground arith

-- `NewDocId` returns an id of the kind that the short type stands for, holding the whole text, or nil
-- exactly where `ParseDocId` fails.
pub new_doc_id-cases : (s : Bytes) → NewCases s
unfolding new_doc_id new_kind_doc_id
new_doc_id-cases s = elim (Result-cases (parse_doc_id s)) [
  | inl ((b, ty), e) ↦
      let (k, known, typed) = known_kind _ ty ((parse_doc_id_iff s b ty).0 e).known in
      inl (
        new_kind_doc_id k s,
        record { body = b; ty = ty; parses = e; typed = typed; built = refl },
        new_doc_id_of_parse s b ty k e known,
      )
  | inr (inl (x, e)) ↦ inr (x, e, rw (e, new_doc_id))
  | inr (inr e) ↦ absurd (parse_doc_id-ne-panic s e)
]

-- An id is valid exactly when `NewDocId` accepts its text, whatever kind it has.
pub doc_id_is_valid_iff :
    (ui : DocId)
    → (is_valid ui ≡ ok tt) ↔ ((d : DocId) × Builds ui.s d × (new_doc_id ui.s ≡ some d))
unfolding is_valid
doc_id_is_valid_iff ui = elim (new_doc_id-cases ui.s) [
  | inl (d, b, e) ↦ (λ _. (d, b, e), λ _. rw (b.parses, is_valid))
  | inr (x, e, f) ↦ (λ h. cc (rw (e, is_valid) at h), λ (d, b, _). cc (b.parses))
]

kind_of_type-doc_id_type : (k : DocIdKind) → kind_of_type (doc_id_type k) ≡ some k
unfolding kind_of_type
kind_of_type-doc_id_type bs = refl
kind_of_type-doc_id_type user = refl
kind_of_type-doc_id_type land = refl
kind_of_type-doc_id_type voting = refl
kind_of_type-doc_id_type history = refl

doc_id_type-injective : (j k : DocIdKind) → doc_id_type j ≡ doc_id_type k → j ≡ k
doc_id_type-injective j k e =
    cc (kind_of_type-doc_id_type j, kind_of_type-doc_id_type k, ap kind_of_type e)

-- The hint of the id is that of its kind, as in the ids that the constructors make.
abbrev pub Made : DocId → Type 0
Made ui = ui.hint ≡ new_hint (doc_id_type ui.kind)

not_zero :
    (k : DocIdKind) (h : Hint) (s : Bytes)
    → h ≡ new_hint (doc_id_type k)
    → is_zero (record { kind = k; hint = h; s = s }) ≡ false
unfolding is_zero
not_zero bs h s e = rw e refl
not_zero user h s e = rw e refl
not_zero land h s e = rw e refl
not_zero voting h s e = rw e refl
not_zero history h s e = rw e refl

takes_own_kind : (k : DocIdKind) → (k ≡ argument_kind k) ↔ (k ≢ bs)
takes_own_kind bs = (λ e f. cc, λ n. absurd (n refl))
takes_own_kind user = (λ e f. cc, λ n. refl)
takes_own_kind land = (λ e f. cc, λ n. refl)
takes_own_kind voting = (λ e f. cc, λ n. refl)
takes_own_kind history = (λ e f. cc, λ n. refl)

equal_sound :
    (ui b : DocId) (takes : b.kind ≡ argument_kind ui.kind)
    → Made ui
    → Made b
    → equal ui b takes ≡ true
    → (ui.kind ≡ b.kind) × (ui.s ≡ b.s) × (is_valid b ≡ ok tt)
unfolding equal is_valid
equal_sound ui b takes u v h = ground (
  arith,
  u,
  v,
  not_zero b.kind b.hint b.s v,
  eq_iff (doc_id_type ui.kind) (doc_id_type b.kind),
  doc_id_type-injective ui.kind b.kind,
  bytes_eq_iff ui.s b.s,
)

equal_complete :
    (ui b : DocId) (takes : b.kind ≡ argument_kind ui.kind)
    → Made ui
    → Made b
    → ui.kind ≡ b.kind
    → ui.s ≡ b.s
    → is_valid b ≡ ok tt
    → equal ui b takes ≡ true
unfolding equal
equal_complete ui b takes u v k e h = ground (
  arith,
  not_zero b.kind b.hint b.s v,
  ap doc_id_type k,
  eq_iff (doc_id_type ui.kind) (doc_id_type b.kind),
  bytes_eq_iff ui.s b.s,
)

-- Where an id and the argument of its method `Equal` have the hints of their kinds, as the
-- constructors make them, they are equal exactly when the receiver is not a blocksign id, both hold
-- one text, and that text is a valid id: a blocksign id is equal to no argument that its method takes.
pub equal_iff :
    (ui b : DocId) (takes : b.kind ≡ argument_kind ui.kind)
    → Made ui
    → Made b
    → (equal ui b takes ≡ true) ↔ ((ui.kind ≢ bs) × (ui.s ≡ b.s) × (is_valid b ≡ ok tt))
equal_iff ui b takes u v = (
  λ h.
      let (k, e, w) = equal_sound ui b takes u v h in
      ((takes_own_kind ui.kind).0 (k ∙ takes), e, w),
  λ (n, e, w). equal_complete ui b takes u v ((takes_own_kind ui.kind).1 n ∙ sym takes) e w,
)
