-- ===== src/DocData.antt =====
-- The five kinds of document data of document/document_data.go, and `Document`.
mod Records
pub mod Order
pub mod Checks
pub mod Equality
use Prim.Native.String.{String}
use text.Mathlib.Text.{◌==◌ as str_eq}
use mitum_data_blocksign.Prelude.{
  Bytes, Bool, not, List, [], ◌∷◌, ◌++◌, map, ok, ◌>>=◌, ◌>>◌, fail_if, map_err, for_each,
  sort_slice, by_key,
}
use mitum_data_blocksign.Error.{Error, wrapped, doc_type_mismatch}
use mitum_data_blocksign.Mitum.{Outcome, Validity, Hint, new_hint, Util, Addresses}
use mitum_data_blocksign.DocInfo.{DocInfo}
use mitum_data_blocksign.DocInfo
use mitum_data_blocksign.DocParts.{
  statistics_bytes, statistics_is_valid, sign_bytes, sign_is_valid, candidate_bytes,
  candidate_is_valid,
}
pub use Records.*

-- `doc.info.docType != doc.Hint().Type()`
type_mismatch : DocInfo → Hint → Bool
type_mismatch info hint = not (str_eq info.doc_type hint.ty)

module _ {A : Type 0} where
  -- `Hint`, `Info`, `Owner`, `DocumentType` and `DocumentId` of the interface
  unfoldable pub hint_of : DocumentData A → Hint
  hint_of (bs_doc d) = d.hint
  hint_of (bc_user d) = d.hint
  hint_of (bc_land d) = d.hint
  hint_of (bc_voting d) = d.hint
  hint_of (bc_history d) = d.hint

  unfoldable pub info : DocumentData A → DocInfo
  info (bs_doc d) = d.info
  info (bc_user d) = d.info
  info (bc_land d) = d.info
  info (bc_voting d) = d.info
  info (bc_history d) = d.info

  unfoldable pub owner : DocumentData A → A
  owner (bs_doc d) = d.owner
  owner (bc_user d) = d.owner
  owner (bc_land d) = d.owner
  owner (bc_voting d) = d.owner
  owner (bc_history d) = d.owner

  unfoldable pub document_id : DocumentData A → Outcome Bytes
  unfolding info
  document_id d = DocInfo.document_id (info d)

  -- `Accounts`: the accounts that must exist for the document
  unfoldable pub accounts : DocumentData A → List A
  accounts (bs_doc d) = map (λ s. s.address) d.signers
  accounts (bc_user d) = []
  accounts (bc_land d) = []
  accounts (bc_voting d) = d.account ∷ map (λ c. c.address) d.candidates
  accounts (bc_history d) = d.account ∷ []

module _ {A : Type 0} ⦃a : Addresses A⦄ ⦃u : Util⦄ where
  -- `IsValid`
  unfoldable pub bs_doc_is_valid : BsDocData A → Validity
  unfolding type_mismatch
  bs_doc_is_valid d = do
    fail_if (type_mismatch d.info d.hint) doc_type_mismatch
    map_err wrapped (
        u.check (
          u.hinter_is_valid d.hint
          ∷ DocInfo.is_valid d.info
          ∷ a.address_is_valid d.owner
          ∷ sign_is_valid d.creator
          ∷ []))
    for_each sign_is_valid d.signers

  unfoldable pub bc_user_is_valid : BcUserData A → Validity
  unfolding type_mismatch
  bc_user_is_valid d = do
    fail_if (type_mismatch d.info d.hint) doc_type_mismatch
    map_err wrapped (
        u.check (
          u.hinter_is_valid d.hint
          ∷ DocInfo.is_valid d.info
          ∷ a.address_is_valid d.owner
          ∷ statistics_is_valid d.statistics
          ∷ []))

  unfoldable pub bc_land_is_valid : BcLandData A → Validity
  unfolding type_mismatch
  bc_land_is_valid d = do
    fail_if (type_mismatch d.info d.hint) doc_type_mismatch
    map_err wrapped (
        u.check
          (u.hinter_is_valid d.hint ∷ DocInfo.is_valid d.info ∷ a.address_is_valid d.owner ∷ []))

  unfoldable pub bc_voting_is_valid : BcVotingData A → Validity
  unfolding type_mismatch
  bc_voting_is_valid d = do
    fail_if (type_mismatch d.info d.hint) doc_type_mismatch
    map_err wrapped (
        u.check
          (u.hinter_is_valid d.hint ∷ DocInfo.is_valid d.info ∷ a.address_is_valid d.owner ∷ []))
    for_each candidate_is_valid d.candidates

  unfoldable pub bc_history_is_valid : BcHistoryData A → Validity
  unfolding type_mismatch
  bc_history_is_valid d = do
    fail_if (type_mismatch d.info d.hint) doc_type_mismatch
    map_err wrapped (
        u.check (
          u.hinter_is_valid d.hint
          ∷ DocInfo.is_valid d.info
          ∷ a.address_is_valid d.owner
          ∷ a.address_is_valid d.account
          ∷ []))

  unfoldable pub is_valid : DocumentData A → Validity
  is_valid (bs_doc d) = bs_doc_is_valid d
  is_valid (bc_user d) = bc_user_is_valid d
  is_valid (bc_land d) = bc_land_is_valid d
  is_valid (bc_voting d) = bc_voting_is_valid d
  is_valid (bc_history d) = bc_history_is_valid d

  -- `Bytes`, which the hash is taken of. The signers are put in the order of their addresses, the
  -- candidates in the order of their bytes.
  unfoldable pub bs_doc_bytes : BsDocData A → Outcome Bytes
  bs_doc_bytes d = do
    info ← DocInfo.bytes d.info
    ok (
        u.concat_bytes (
          info
          ∷ a.address_bytes d.owner
          ∷ d.file_hash
          ∷ sign_bytes d.creator
          ∷ d.title
          ∷ u.big_bytes d.size
          ∷ map sign_bytes (sort_slice (by_key (λ s. a.address_bytes s.address)) d.signers)))

  unfoldable pub bc_user_bytes : BcUserData A → Outcome Bytes
  bc_user_bytes d = do
    info ← DocInfo.bytes d.info
    ok (
        u.concat_bytes (
          info
          ∷ a.address_bytes d.owner
          ∷ u.uint_to_bytes d.gold
          ∷ u.uint_to_bytes d.bankgold
          ∷ statistics_bytes d.statistics
          ∷ []))

  unfoldable pub bc_land_bytes : BcLandData A → Outcome Bytes
  bc_land_bytes d = do
    info ← DocInfo.bytes d.info
    ok (
        u.concat_bytes (
          info
          ∷ a.address_bytes d.owner
          ∷ d.address
          ∷ d.area
          ∷ d.renter
          ∷ a.address_bytes d.account
          ∷ d.rentdate
          ∷ u.uint_to_bytes d.periodday
          ∷ []))

  unfoldable pub bc_voting_bytes : BcVotingData A → Outcome Bytes
  bc_voting_bytes d = do
    info ← DocInfo.bytes d.info
    ok (
        u.concat_bytes (
          info
          ∷ a.address_bytes d.owner
          ∷ u.uint_to_bytes d.round
          ∷ d.end_vote_time
          ∷ d.bossname
          ∷ a.address_bytes d.account
          ∷ d.termofoffice
          ∷ map candidate_bytes (sort_slice (by_key candidate_bytes) d.candidates)))

  unfoldable pub bc_history_bytes : BcHistoryData A → Outcome Bytes
  bc_history_bytes d = do
    info ← DocInfo.bytes d.info
    ok (
        u.concat_bytes (
          info
          ∷ a.address_bytes d.owner
          ∷ d.name
          ∷ a.address_bytes d.account
          ∷ d.date
          ∷ d.usage
          ∷ d.application
          ∷ []))

  unfoldable pub bytes : DocumentData A → Outcome Bytes
  bytes (bs_doc d) = bs_doc_bytes d
  bytes (bc_user d) = bc_user_bytes d
  bytes (bc_land d) = bc_land_bytes d
  bytes (bc_voting d) = bc_voting_bytes d
  bytes (bc_history d) = bc_history_bytes d

  -- `GenerateHash`
  pub generate_hash : DocumentData A → Outcome Bytes
  generate_hash d = do b ← bytes d; ok (u.sha256 b)

  -- `Document.IsValid`
  pub document_is_valid : Document A → Validity
  document_is_valid doc =
      map_err wrapped (u.check (u.hinter_is_valid doc.hint ∷ is_valid doc.content ∷ []))
