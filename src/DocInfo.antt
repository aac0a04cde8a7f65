-- ===== src/DocInfo.antt =====
-- `DocInfo` of document/document.go: the id and the type under which a document is listed.
use Prim.Native.String.{String}
use text.Mathlib.Text.{◌==◌ as str_eq}
use mitum_data_blocksign.Prelude.{
  Bytes, codes, bytes_eq, Bool, ◌&&◌, Option, none, some, [], ◌∷◌, if◌then◌else◌, ok, err, panic,
  ◌>>=◌, ◌>>◌, fail_if, map_err,
}
use mitum_data_blocksign.Error.{wrapped, doc_id_empty, doc_type_empty}
use mitum_data_blocksign.Mitum.{Outcome, Validity, Hint, new_hint, zero_hint, Util}
use mitum_data_blocksign.DocId.{DocId, DocIdKind, bs, user, land, voting, history, new_kind_doc_id}

-- The hint types of the five kinds of document data.
abbrev pub bs_doc_data_type : String
bs_doc_data_type = "mitum-blocksign-document-data"

abbrev pub bc_user_data_type : String
bc_user_data_type = "mitum-blockcity-document-user-data"

abbrev pub bc_land_data_type : String
bc_land_data_type = "mitum-blockcity-document-land-data"

abbrev pub bc_voting_data_type : String
bc_voting_data_type = "mitum-blockcity-document-voting-data"

abbrev pub bc_history_data_type : String
bc_history_data_type = "mitum-blockcity-document-history-data"

abbrev pub doc_info_type : String
doc_info_type = "mitum-document-info"

-- A nil `DocId` is `none`.
pub record DocInfo : Type 0 where
  pub hint : Hint
  pub id : Option DocId
  pub doc_type : String

-- `DocInfo{}`
abbrev pub zero_doc_info : DocInfo
zero_doc_info = record { hint = zero_hint; id = none; doc_type = "" }

-- The kind of id that goes with a type of document data.
kind_of_data_type : String → Option DocIdKind
kind_of_data_type ty =
    if str_eq ty bs_doc_data_type
    then some bs
    else if str_eq ty bc_user_data_type
    then some user
    else if str_eq ty bc_land_data_type
    then some land
    else if str_eq ty bc_voting_data_type
    then some voting
    else if str_eq ty bc_history_data_type
    then some history
    else none

-- `NewDocInfo`
pub new_doc_info : Bytes → String → DocInfo
unfolding kind_of_data_type
new_doc_info id doc_type = elim (kind_of_data_type doc_type) [
  | none ↦ zero_doc_info
  | some k ↦ record {
    hint = new_hint doc_info_type;
    id = some (new_kind_doc_id k id);
    doc_type = doc_type;
  }
]

-- `di.id.String()`: a method call on a nil interface panics.
unfoldable pub id_string : Option DocId → Outcome Bytes
id_string none = panic
id_string (some d) = ok d.s

-- `DocumentId`
unfoldable pub document_id : DocInfo → Outcome Bytes
unfolding id_string
document_id di = id_string di.id

-- `Equal`
unfoldable pub equal : DocInfo → DocInfo → Outcome Bool
equal di b = do
  x ← id_string di.id
  y ← id_string b.id
  ok (bytes_eq x y && str_eq di.doc_type b.doc_type)

module _ ⦃u : Util⦄ where
  -- `Bytes`
  unfoldable pub bytes : DocInfo → Outcome Bytes
  bytes di = do id ← id_string di.id; ok (u.concat_bytes (id ∷ codes di.doc_type ∷ []))

  -- The tests of `IsValid` on the id.
  id_is_set : Option DocId → Validity
  id_is_set none = err (wrapped doc_id_empty)
  id_is_set (some _) = ok tt

  -- `IsValid`
  unfoldable pub is_valid : DocInfo → Validity
  unfolding id_is_set
  is_valid di = do
    id_is_set di.id
    fail_if (str_eq di.doc_type "") (wrapped doc_type_empty)
    map_err wrapped (u.check (u.hinter_is_valid di.hint ∷ u.type_is_valid di.doc_type ∷ []))
