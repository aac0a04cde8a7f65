-- ===== src/Encoding/RoundTrip/Parts.antt =====
-- Ids, signatures, statistics, candidates and infos.
use mitum_data_blocksign.Prelude.{bytes_eq, some, ◌≡◌, refl, ok}
use mitum_data_blocksign.Mitum.{new_hint, Addresses}
use mitum_data_blocksign.DocId.{DocId}
use mitum_data_blocksign.DocInfo.{DocInfo}
use mitum_data_blocksign.DocParts.{
  UserStatistics, DocSign, VotingCandidate, user_statistics_type, doc_sign_type,
}
use mitum_data_blocksign.Encoding.{
  Format, json, bson, same_name, field_of, get_field, read_text, read_type, read_uint, read_flag,
}
use mitum_data_blocksign.Encoding.Hinted.{Encoder, doc_id, as_doc_id}
use mitum_data_blocksign.Encoding.Ids.{
  pack_doc_id, unpack_doc_id, pack_optional_id, pack_doc_info, unpack_doc_info,
  unpack_doc_info_fields, doc_type_tag,
}
use mitum_data_blocksign.Encoding.Parts.{
  pack_doc_sign, unpack_doc_sign, unpack_doc_sign_fields, pack_statistics, unpack_statistics,
  pack_candidate, unpack_candidate, unpack_candidate_fields,
}

pub unpack_doc_id-pack : (i : DocId) → unpack_doc_id i.kind i.hint (pack_doc_id i) ≡ ok i
unfolding unpack_doc_id pack_doc_id get_field field_of same_name bytes_eq read_text
unpack_doc_id-pack i = refl

pub unpack_statistics-pack :
    (us : UserStatistics)
    → unpack_statistics (new_hint user_statistics_type) (pack_statistics us)
      ≡ ok (record us { hint = new_hint user_statistics_type })
unfolding unpack_statistics pack_statistics get_field field_of same_name bytes_eq read_uint
unpack_statistics-pack us = refl

module _ {A : Type 0} ⦃a : Addresses A⦄ (enc : Encoder A)
    (addressed : (x : A) → enc.decode_address (a.address_string x) ≡ ok x) where
  pub unpack_doc_sign-pack :
      (s : DocSign A)
      → unpack_doc_sign enc (new_hint doc_sign_type) (pack_doc_sign s)
        ≡ ok (record s { hint = new_hint doc_sign_type })
  unfolding unpack_doc_sign unpack_doc_sign_fields pack_doc_sign get_field field_of same_name
      bytes_eq read_text read_flag
  unpack_doc_sign-pack s = rw (addressed s.address) refl

  pub unpack_candidate-pack :
      (c : VotingCandidate A) → unpack_candidate enc c.hint (pack_candidate c) ≡ ok c
  unfolding unpack_candidate unpack_candidate_fields pack_candidate get_field field_of same_name
      bytes_eq read_text read_uint
  unpack_candidate-pack c = rw (addressed c.address) refl

module _ {A : Type 0} (enc : Encoder A) where
  read_doc_type :
      (f : Format) (i : DocInfo)
      → read_type (get_field (doc_type_tag f) (pack_doc_info i)) ≡ ok i.doc_type
  unfolding doc_type_tag pack_doc_info get_field field_of same_name bytes_eq read_type
  read_doc_type json i = refl
  read_doc_type bson i = refl

  read_id :
      (i : DocInfo) (x : DocId)
      → i.id ≡ some x
      → get_field "docid" (pack_doc_info i) ≡ some (pack_doc_id x)
  unfolding pack_doc_info pack_optional_id get_field field_of same_name bytes_eq
  read_id i x e = rw e refl

  -- The tags differ in their case for JSON, and are the same for BSON.
  pub unpack_doc_info-pack :
      (i : DocInfo) (x : DocId)
      → i.id ≡ some x
      → enc.decode (some (pack_doc_id x)) ≡ ok (some (doc_id x))
      → unpack_doc_info enc i.hint (pack_doc_info i) ≡ ok i
  unfolding unpack_doc_info unpack_doc_info_fields as_doc_id
  unpack_doc_info-pack i x e decodes =
      rw (read_doc_type enc.format i, read_id i x e, decodes) (rw⁻¹ e refl)
