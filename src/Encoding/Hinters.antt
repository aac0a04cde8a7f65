-- ===== src/Encoding/Hinters.antt =====
-- cmds/hinters.go, `hinters`: the types of the document package that encoders know; and the values that
-- can be packed and unpacked, by their types.
use Prim.Native.String.{String}
use text.Mathlib.Text.{◌==◌ as str_eq}
use mitum_data_blocksign.Prelude.{
  Option, none, some, List, [], ◌∷◌, ok, ◌>>=◌, ◌≡◌, All, map_each, if◌then◌else◌,
}
use mitum_data_blocksign.Mitum.{Outcome, Hint, new_hint, Addresses}
use mitum_data_blocksign.DocId.{
  DocId, DocIdKind, bs, user, land, voting, history, doc_id_type, bs_doc_id_type, user_doc_id_type,
  land_doc_id_type, voting_doc_id_type, history_doc_id_type,
}
use mitum_data_blocksign.DocInfo.{
  DocInfo, doc_info_type, bs_doc_data_type, bc_user_data_type, bc_land_data_type,
  bc_voting_data_type, bc_history_data_type,
}
use mitum_data_blocksign.DocParts.{
  UserStatistics, DocSign, VotingCandidate, user_statistics_type, doc_sign_type,
  voting_candidate_type,
}
use mitum_data_blocksign.DocData.{
  DocumentData, bs_doc, bc_user, bc_land, bc_voting, bc_history, hint_of,
}
use mitum_data_blocksign.Fact.{
  create_documents_item_type, update_documents_item_type, sign_item_single_document_type,
}
use mitum_data_blocksign.Encoding.{Tree, array, trees}
use mitum_data_blocksign.Encoding.Hinted.{
  Hinted, doc_id, doc_info, doc_sign, statistics, candidate, data_of, create_item, update_item,
  sign_item, Encoder,
}
use mitum_data_blocksign.Encoding.Ids.{pack_doc_id, unpack_doc_id, pack_doc_info, unpack_doc_info}
use mitum_data_blocksign.Encoding.Parts.{
  pack_doc_sign, unpack_doc_sign, pack_statistics, unpack_statistics, pack_candidate,
  unpack_candidate,
}
use mitum_data_blocksign.Encoding.Data.{
  pack_data, unpack_bs_doc, unpack_bc_user, unpack_bc_land, unpack_bc_voting, unpack_bc_history,
}
use mitum_data_blocksign.Encoding.Facts.{
  pack_create_item, unpack_create_item, pack_update_item, unpack_update_item, pack_sign_item,
  unpack_sign_item,
}

-- The Go types behind `hinters`
pub data Registered : Type 0 where
  a_doc_id : DocIdKind → Registered
  a_doc_info a_doc_sign a_statistics a_candidate : Registered
  a_bs_doc a_bc_user a_bc_land a_bc_voting a_bc_history : Registered
  a_create_item an_update_item a_sign_item : Registered

abbrev pub hinters : List (String × Registered)
hinters =
    (sign_item_single_document_type, a_sign_item)
    ∷ (doc_sign_type, a_doc_sign)
    ∷ (create_documents_item_type, a_create_item)
    ∷ (update_documents_item_type, an_update_item)
    ∷ (bs_doc_data_type, a_bs_doc)
    ∷ (bc_user_data_type, a_bc_user)
    ∷ (bc_land_data_type, a_bc_land)
    ∷ (bc_voting_data_type, a_bc_voting)
    ∷ (bc_history_data_type, a_bc_history)
    ∷ (user_statistics_type, a_statistics)
    ∷ (doc_info_type, a_doc_info)
    ∷ (voting_candidate_type, a_candidate)
    ∷ (bs_doc_id_type, a_doc_id bs)
    ∷ (user_doc_id_type, a_doc_id user)
    ∷ (land_doc_id_type, a_doc_id land)
    ∷ (voting_doc_id_type, a_doc_id voting)
    ∷ (history_doc_id_type, a_doc_id history)
    ∷ []

unfoldable pub find_hinter : String → List (String × Registered) → Option Registered
find_hinter ty [] = none
find_hinter ty ((k, r) ∷ m) = if str_eq k ty then some r else find_hinter ty m

module _ {A : Type 0} where
  -- The Go type of a value
  unfoldable pub registered_as : Hinted A → Registered
  registered_as (doc_id i) = a_doc_id i.kind
  registered_as (doc_info i) = a_doc_info
  registered_as (doc_sign s) = a_doc_sign
  registered_as (statistics s) = a_statistics
  registered_as (candidate c) = a_candidate
  registered_as (data_of (bs_doc d)) = a_bs_doc
  registered_as (data_of (bc_user d)) = a_bc_user
  registered_as (data_of (bc_land d)) = a_bc_land
  registered_as (data_of (bc_voting d)) = a_bc_voting
  registered_as (data_of (bc_history d)) = a_bc_history
  registered_as (create_item i) = a_create_item
  registered_as (update_item i) = an_update_item
  registered_as (sign_item i) = a_sign_item

  -- The hint under which a value is packed
  unfoldable pub packed_hint : Hinted A → Hint
  packed_hint (doc_id i) = i.hint
  packed_hint (doc_info i) = i.hint
  packed_hint (doc_sign s) = new_hint doc_sign_type
  packed_hint (statistics s) = new_hint user_statistics_type
  packed_hint (candidate c) = c.hint
  packed_hint (data_of d) = hint_of d
  packed_hint (create_item i) = i.hint
  packed_hint (update_item i) = i.hint
  packed_hint (sign_item i) = i.hint

  -- `UnpackJSON` or `UnpackBSON` of a new value of the type, with the hint
  unfoldable pub unpack_as : Encoder A → Registered → Hint → Tree → Outcome (Hinted A)
  unpack_as enc (a_doc_id k) h t = do i ← unpack_doc_id k h t; ok (doc_id i)
  unpack_as enc a_doc_info h t = do i ← unpack_doc_info enc h t; ok (doc_info i)
  unpack_as enc a_doc_sign h t = do s ← unpack_doc_sign enc h t; ok (doc_sign s)
  unpack_as enc a_statistics h t = do s ← unpack_statistics h t; ok (statistics s)
  unpack_as enc a_candidate h t = do c ← unpack_candidate enc h t; ok (candidate c)
  unpack_as enc a_bs_doc h t = do d ← unpack_bs_doc enc h t; ok (data_of (bs_doc d))
  unpack_as enc a_bc_user h t = do d ← unpack_bc_user enc h t; ok (data_of (bc_user d))
  unpack_as enc a_bc_land h t = do d ← unpack_bc_land enc h t; ok (data_of (bc_land d))
  unpack_as enc a_bc_voting h t = do d ← unpack_bc_voting enc h t; ok (data_of (bc_voting d))
  unpack_as enc a_bc_history h t = do d ← unpack_bc_history enc h t; ok (data_of (bc_history d))
  unpack_as enc a_create_item h t = do i ← unpack_create_item enc h t; ok (create_item i)
  unpack_as enc an_update_item h t = do i ← unpack_update_item enc h t; ok (update_item i)
  unpack_as enc a_sign_item h t = do i ← unpack_sign_item enc h t; ok (sign_item i)

module _ {A : Type 0} ⦃a : Addresses A⦄ where
  unfoldable pub pack : Hinted A → Tree
  pack (doc_id i) = pack_doc_id i
  pack (doc_info i) = pack_doc_info i
  pack (doc_sign s) = pack_doc_sign s
  pack (statistics s) = pack_statistics s
  pack (candidate c) = pack_candidate c
  pack (data_of d) = pack_data d
  pack (create_item i) = pack_create_item i
  pack (update_item i) = pack_update_item i
  pack (sign_item i) = pack_sign_item i

-- Values whose hints are of their types, and whose infos have ids: what the constructors make, with
-- `DocSignHint` in the signatures and `UserStatisticsHint` in the statistics, which
-- `NewUserStatistics` leaves out.
abbrev pub IdPackable : DocId → Type 0
IdPackable i = i.hint.ty ≡ doc_id_type i.kind

abbrev pub InfoPackable : DocInfo → Type 0
InfoPackable i = (i.hint.ty ≡ doc_info_type) × (x : DocId) × (i.id ≡ some x) × IdPackable x

abbrev pub SignPackable : {A : Type 0} → DocSign A → Type 0
SignPackable s = s.hint ≡ new_hint doc_sign_type

abbrev pub CandidatePackable : {A : Type 0} → VotingCandidate A → Type 0
CandidatePackable c = c.hint.ty ≡ voting_candidate_type

abbrev pub StatisticsPackable : UserStatistics → Type 0
StatisticsPackable us = us.hint ≡ new_hint user_statistics_type

abbrev pub DataPackable : {A : Type 0} → DocumentData A → Type 0
DataPackable (bs_doc d) =
    (d.hint.ty ≡ bs_doc_data_type)
    × InfoPackable d.info
    × SignPackable d.creator
    × All SignPackable d.signers
DataPackable (bc_user d) =
    (d.hint.ty ≡ bc_user_data_type) × InfoPackable d.info × StatisticsPackable d.statistics
DataPackable (bc_land d) = (d.hint.ty ≡ bc_land_data_type) × InfoPackable d.info
DataPackable (bc_voting d) =
    (d.hint.ty ≡ bc_voting_data_type) × InfoPackable d.info × All CandidatePackable d.candidates
DataPackable (bc_history d) = (d.hint.ty ≡ bc_history_data_type) × InfoPackable d.info

abbrev pub Packable : {A : Type 0} → Hinted A → Type 0
Packable (doc_id i) = IdPackable i
Packable (doc_info i) = InfoPackable i
Packable (doc_sign s) = SignPackable s
Packable (statistics s) = StatisticsPackable s
Packable (candidate c) = CandidatePackable c
Packable (data_of d) = DataPackable d
Packable (create_item i) = (i.hint.ty ≡ create_documents_item_type) × DataPackable i.doc
Packable (update_item i) = (i.hint.ty ≡ update_documents_item_type) × DataPackable i.doc
Packable (sign_item i) = i.hint.ty ≡ sign_item_single_document_type

-- What is assumed of the encoder: `Decode` finds the registered type of the hint and unpacks into it,
-- `DecodeSlice` decodes each element, and an address is read from its text.
pub record EncoderLaws {A : Type 0} ⦃a : Addresses A⦄ (enc : Encoder A) : Type 0 where
  pub decode_packed :
      (v : Hinted A)
      → Packable v
      → find_hinter (packed_hint v).ty hinters ≡ some (registered_as v)
      → enc.decode (some (pack v))
        ≡ (unpack_as enc (registered_as v) (packed_hint v) (pack v) >>= λ w. ok (some w))
  pub decode_array :
      (ts : List Tree)
      → enc.decode_slice (some (array (trees ts))) ≡ map_each (λ t. enc.decode (some t)) ts
  pub decode_address_string : (x : A) → enc.decode_address (a.address_string x) ≡ ok x
