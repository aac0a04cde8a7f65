-- ===== src/DocParts.antt =====
-- The parts of document data in document/document.go: user statistics, signatures, candidates.
use Prim.Native.String.{String}
use mitum_data_blocksign.Prelude.{
  ℕ, Bytes, bytes_eq, Bool, true, false, not, ◌&&◌, [], ◌∷◌, length, ltb, ◌==◌, if◌then◌else◌, ok,
  ◌>>◌, fail_if, map_err,
}
use mitum_data_blocksign.Error.{wrapped, over_max_manifest, empty_file_hash}
use mitum_data_blocksign.Mitum.{Validity, Hint, new_hint, zero_hint, Util, Addresses}

pub record UserStatistics : Type 0 where
  pub hint : Hint
  pub hp : ℕ
  pub strength : ℕ
  pub agility : ℕ
  pub dexterity : ℕ
  pub charisma : ℕ
  pub intelligence : ℕ
  pub vital : ℕ

abbrev pub user_statistics_type : String
user_statistics_type = "mitum-blockcity-user-statistics"

-- `NewUserStatistics` sets no hint.
abbrev pub new_user_statistics : ℕ → ℕ → ℕ → ℕ → ℕ → ℕ → ℕ → UserStatistics
new_user_statistics hp strength agility dexterity charisma intelligence vital = record {
  hint = zero_hint;
  hp = hp;
  strength = strength;
  agility = agility;
  dexterity = dexterity;
  charisma = charisma;
  intelligence = intelligence;
  vital = vital;
}

unfoldable pub statistics_is_valid : UserStatistics → Validity
statistics_is_valid us = ok tt

pub statistics_equal : UserStatistics → UserStatistics → Bool
statistics_equal us b =
    if not (us.hp == b.hp)
    then false
    else if not (us.strength == b.strength)
    then false
    else if not (us.agility == b.agility)
    then false
    else if not (us.dexterity == b.dexterity)
    then false
    else if not (us.charisma == b.charisma)
    then false
    else if not (us.intelligence == b.intelligence)
    then false
    else if not (us.vital == b.vital)
    then false
    else true

-- `FileHash` is a string type.
pub file_hash_is_valid : Bytes → Validity
file_hash_is_valid fh = fail_if (ltb (length fh) 1) empty_file_hash

abbrev pub doc_sign_type : String
doc_sign_type = "mitum-blocksign-docsign"

pub record DocSign (A : Type 0) : Type 0 where
  pub hint : Hint
  pub address : A
  pub signcode : Bytes
  pub signed : Bool

abbrev pub max_manifest : ℕ
max_manifest = 100

abbrev pub voting_candidate_type : String
voting_candidate_type = "mitum-blockcity-voting-candidate"

pub record VotingCandidate (A : Type 0) : Type 0 where
  pub hint : Hint
  pub address : A
  pub nickname : Bytes
  pub manifest : Bytes
  pub count : ℕ

module _ {A : Type 0} where
  abbrev pub new_doc_sign : A → Bytes → Bool → DocSign A
  new_doc_sign address signcode signed = record {
    hint = new_hint doc_sign_type;
    address = address;
    signcode = signcode;
    signed = signed;
  }

  -- `SetSigned`
  unfoldable pub set_signed : DocSign A → DocSign A
  set_signed ds = record ds { signed = true }

  unfoldable pub sign_is_valid : DocSign A → Validity
  sign_is_valid ds = ok tt

  abbrev pub new_voting_candidate : A → Bytes → Bytes → ℕ → VotingCandidate A
  new_voting_candidate address nickname manifest count = record {
    hint = new_hint voting_candidate_type;
    address = address;
    nickname = nickname;
    manifest = manifest;
    count = count;
  }

module _ {A : Type 0} ⦃a : Addresses A⦄ where
  pub sign_equal : DocSign A → DocSign A → Bool
  sign_equal ds b =
      if not (a.address_equal ds.address b.address)
      then false
      else if not (bytes_eq ds.signcode b.signcode)
      then false
      else if ds.signed
      then b.signed
      else not b.signed

  pub candidate_equal : VotingCandidate A → VotingCandidate A → Bool
  candidate_equal vc b =
      a.address_equal vc.address b.address
      && bytes_eq vc.nickname b.nickname
      && bytes_eq vc.manifest b.manifest
      && vc.count == b.count

module _ ⦃u : Util⦄ where
  pub statistics_bytes : UserStatistics → Bytes
  statistics_bytes us = u.concat_bytes (
      u.uint_to_bytes us.hp
      ∷ u.uint_to_bytes us.strength
      ∷ u.uint_to_bytes us.agility
      ∷ u.uint_to_bytes us.dexterity
      ∷ u.uint_to_bytes us.charisma
      ∷ u.uint_to_bytes us.intelligence
      ∷ u.uint_to_bytes us.vital
      ∷ [])

module _ {A : Type 0} ⦃a : Addresses A⦄ ⦃u : Util⦄ where
  unfoldable pub sign_bytes : DocSign A → Bytes
  sign_bytes ds =
      u.concat_bytes
        (a.address_bytes ds.address ∷ ds.signcode ∷ ((if ds.signed then 1 else 0) ∷ []) ∷ [])

  pub candidate_bytes : VotingCandidate A → Bytes
  candidate_bytes vc =
      u.concat_bytes
        (a.address_bytes vc.address ∷ vc.nickname ∷ vc.manifest ∷ u.uint_to_bytes vc.count ∷ [])

  unfoldable pub candidate_is_valid : VotingCandidate A → Validity
  candidate_is_valid vc = do
    fail_if (ltb max_manifest (length vc.manifest)) (wrapped over_max_manifest)
    map_err wrapped (u.check (a.address_is_valid vc.address ∷ []))
