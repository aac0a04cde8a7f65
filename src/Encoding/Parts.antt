-- ===== src/Encoding/Parts.antt =====
-- The encoded forms of user statistics, signatures and candidates.
use mitum_data_blocksign.Prelude.{ℕ, Bytes, Bool, ok, ◌>>=◌}
use mitum_data_blocksign.Mitum.{Outcome, Hint, new_hint, Addresses}
use mitum_data_blocksign.DocParts.{
  UserStatistics, DocSign, VotingCandidate, user_statistics_type, doc_sign_type,
}
use mitum_data_blocksign.Encoding.{
  Tree, text, uint, flag, object, no_fields, field, get_field, read_text, read_uint, read_flag,
}
use mitum_data_blocksign.Encoding.Hinted.{Encoder}

-- `UserStatistics.MarshalJSON`; its `Hint` is the constant `UserStatisticsHint`.
unfoldable pub pack_statistics : UserStatistics → Tree
pack_statistics us = object (new_hint user_statistics_type) (
    field "hp" (uint us.hp) (
      field "strength" (uint us.strength) (
        field "agility" (uint us.agility) (
          field "dexterity" (uint us.dexterity) (
            field "charisma" (uint us.charisma) (
              field "intelligence" (uint us.intelligence)
                (field "vital" (uint us.vital) no_fields)))))))

-- `UserStatistics.UnpackJSON` with `unpack`
unfoldable pub unpack_statistics : Hint → Tree → Outcome UserStatistics
unpack_statistics h t = do
  hp ← read_uint (get_field "hp" t)
  strength ← read_uint (get_field "strength" t)
  agility ← read_uint (get_field "agility" t)
  dexterity ← read_uint (get_field "dexterity" t)
  charisma ← read_uint (get_field "charisma" t)
  intelligence ← read_uint (get_field "intelligence" t)
  vital ← read_uint (get_field "vital" t)
  ok (record {
    hint = h;
    hp = hp;
    strength = strength;
    agility = agility;
    dexterity = dexterity;
    charisma = charisma;
    intelligence = intelligence;
    vital = vital;
  })

module _ {A : Type 0} ⦃a : Addresses A⦄ where
  -- `DocSign.MarshalJSON`; its `Hint` is the constant `DocSignHint`.
  unfoldable pub pack_doc_sign : DocSign A → Tree
  pack_doc_sign ds = object (new_hint doc_sign_type) (
      field "address" (text (a.address_string ds.address))
        (field "signcode" (text ds.signcode) (field "signed" (flag ds.signed) no_fields)))

  -- `VotingCandidate.MarshalJSON`
  unfoldable pub pack_candidate : VotingCandidate A → Tree
  pack_candidate vc = object vc.hint (
      field "address" (text (a.address_string vc.address)) (
        field "nickname" (text vc.nickname)
          (field "manifest" (text vc.manifest) (field "count" (uint vc.count) no_fields))))

module _ {A : Type 0} (enc : Encoder A) where
  -- `DocSign.unpack`
  unfoldable pub unpack_doc_sign_fields : Hint → Bytes → Bytes → Bool → Outcome (DocSign A)
  unpack_doc_sign_fields h ad sc sg = do
    x ← enc.decode_address ad
    ok (record { hint = h; address = x; signcode = sc; signed = sg })

  -- `DocSign.UnpackJSON`
  unfoldable pub unpack_doc_sign : Hint → Tree → Outcome (DocSign A)
  unpack_doc_sign h t = do
    ad ← read_text (get_field "address" t)
    sc ← read_text (get_field "signcode" t)
    sg ← read_flag (get_field "signed" t)
    unpack_doc_sign_fields h ad sc sg

  -- `VotingCandidate.unpack`
  unfoldable pub unpack_candidate_fields :
      Hint → Bytes → Bytes → Bytes → ℕ → Outcome (VotingCandidate A)
  unpack_candidate_fields h ad snc sma ct = do
    x ← enc.decode_address ad
    ok (record { hint = h; address = x; nickname = snc; manifest = sma; count = ct })

  -- `VotingCandidate.UnpackJSON`
  unfoldable pub unpack_candidate : Hint → Tree → Outcome (VotingCandidate A)
  unpack_candidate h t = do
    ad ← read_text (get_field "address" t)
    nc ← read_text (get_field "nickname" t)
    ma ← read_text (get_field "manifest" t)
    ct ← read_uint (get_field "count" t)
    unpack_candidate_fields h ad nc ma ct
