-- ===== src/DocId.antt =====
-- document/document_id.go: the five kinds of document id, and the short type that ends each id.
pub mod Parse
pub mod Kinds
use Prim.Native.String.{String}
use text.Mathlib.Text.{◌==◌ as str_eq}
use mitum_data_blocksign.Prelude.{
  ℕ, Bytes, codes, bytes_eq, Bool, false, not, ◌&&◌, Option, none, some, List, [], ◌∷◌, ◌-◌, length,
  take, drop, leb, ◌≡◌, ◌==◌, if◌then◌else◌, ok, err, panic, ◌>>◌,
}
use mitum_data_blocksign.Error.{Error, invalid_doc_id, invalid_short_type, wrong_short_type}
use mitum_data_blocksign.Mitum.{Outcome, Validity, Hint, new_hint, zero_hint}

-- The hint types of the ids.
abbrev pub bs_doc_id_type : String
bs_doc_id_type = "mitum-document-id"

abbrev pub user_doc_id_type : String
user_doc_id_type = "mitum-blockcity-user-document-id"

abbrev pub land_doc_id_type : String
land_doc_id_type = "mitum-blockcity-land-document-id"

abbrev pub voting_doc_id_type : String
voting_doc_id_type = "mitum-blockcity-voting-document-id"

abbrev pub history_doc_id_type : String
history_doc_id_type = "mitum-blockcity-history-document-id"

abbrev pub doc_id_short_type_size : ℕ
doc_id_short_type_size = 3

-- `DocIdShortTypeMap`
abbrev pub doc_id_short_type_map : List (Bytes × String)
doc_id_short_type_map =
    (codes "sdi", bs_doc_id_type)
    ∷ (codes "cui", user_doc_id_type)
    ∷ (codes "cli", land_doc_id_type)
    ∷ (codes "cvi", voting_doc_id_type)
    ∷ (codes "chi", history_doc_id_type)
    ∷ []

unfoldable pub find_type : Bytes → List (Bytes × String) → Option String
find_type key [] = none
find_type key ((k, v) ∷ m) = if bytes_eq k key then some v else find_type key m

-- The last test of `ParseDocId`, on the short type and the rest of the id.
unfoldable pub parse_short_type : Bytes → Bytes → Outcome (Bytes × String)
parse_short_type body short_type =
    if not (length short_type == doc_id_short_type_size)
    then err invalid_short_type
    else elim (find_type short_type doc_id_short_type_map) [
      | none ↦ err wrong_short_type
      | some ty ↦ ok (body, ty)
    ]

-- `ParseDocId`
unfoldable pub parse_doc_id : Bytes → Outcome (Bytes × String)
parse_doc_id s =
    let split = length s - doc_id_short_type_size in
    if leb (length s) doc_id_short_type_size
    then err invalid_doc_id
    else parse_short_type (take split s) (drop split s)

-- The five struct types; each holds its hint and its text.
pub data DocIdKind : Type 0 where
  bs user land voting history : DocIdKind

pub record DocId : Type 0 where
  pub kind : DocIdKind
  pub hint : Hint
  pub s : Bytes

abbrev pub doc_id_type : DocIdKind → String
doc_id_type bs = bs_doc_id_type
doc_id_type user = user_doc_id_type
doc_id_type land = land_doc_id_type
doc_id_type voting = voting_doc_id_type
doc_id_type history = history_doc_id_type

-- `NewBSDocId`, `NewUserDocId`, `NewLandDocId`, `NewVotingDocId`, `NewHistoryDocId`
unfoldable pub new_kind_doc_id : DocIdKind → Bytes → DocId
new_kind_doc_id k id = record { kind = k; hint = new_hint (doc_id_type k); s = id }

-- The `switch` of `NewDocId`
unfoldable pub kind_of_type : String → Option DocIdKind
kind_of_type ty =
    if str_eq ty bs_doc_id_type
    then some bs
    else if str_eq ty user_doc_id_type
    then some user
    else if str_eq ty land_doc_id_type
    then some land
    else if str_eq ty voting_doc_id_type
    then some voting
    else if str_eq ty history_doc_id_type
    then some history
    else none

-- `NewDocId`; a nil `DocId` is `none`.
unfoldable pub new_doc_id : Bytes → Option DocId
new_doc_id id = elim (parse_doc_id id) [
  | ok (_, ty) ↦ elim (kind_of_type ty) [ none ↦ none | some k ↦ some (new_kind_doc_id k id) ]
  | err _ ↦ none
  | panic ↦ none
]

-- `IsValid` of each kind
unfoldable pub is_valid : DocId → Validity
is_valid ui = do parse_doc_id ui.s; ok tt

-- `b == UserDocId{}`
is_zero : DocId → Bool
is_zero b =
    str_eq b.hint.ty zero_hint.ty && str_eq b.hint.version zero_hint.version && bytes_eq b.s []

-- The kind of the id that `Equal` of a kind takes: its own, but `BSDocId.Equal` takes a `UserDocId`.
abbrev pub argument_kind : DocIdKind → DocIdKind
argument_kind bs = user
argument_kind user = user
argument_kind land = land
argument_kind voting = voting
argument_kind history = history

-- `Equal` of each kind, on an id of the Go type that it takes: an argument that is zero, has another
-- hint type or is invalid is not equal.
unfoldable pub equal : (ui b : DocId) → b.kind ≡ argument_kind ui.kind → Bool
unfolding is_zero
equal ui b _ =
    if is_zero b
    then false
    else if not (str_eq ui.hint.ty b.hint.ty)
    then false
    else elim (is_valid b) [ ok _ ↦ bytes_eq ui.s b.s | err _ ↦ false | panic ↦ false ]
