-- ===== src/Encoding/RoundTrip/Data.antt =====
-- The five kinds of document data, where the parts decode.
use mitum_data_blocksign.Prelude.{
  bytes_eq, Option, some, List, [], ◌∷◌, map, ◌≡◌, refl, ok, All, ◌>>=◌, map_each,
}
use mitum_data_blocksign.Mitum.{Outcome, Addresses}
use mitum_data_blocksign.DocData.{BsDocData, BcUserData, BcLandData, BcVotingData, BcHistoryData}
use mitum_data_blocksign.Encoding.{
  Tree, array, trees, same_name, field_of, get_field, read_text, read_uint, read_big,
}
use mitum_data_blocksign.Encoding.Hinted.{
  Hinted, Encoder, doc_info, doc_sign, statistics, candidate, as_doc_info, as_doc_sign,
  as_statistics, as_candidate,
}
use mitum_data_blocksign.Encoding.Ids.{pack_doc_info}
use mitum_data_blocksign.Encoding.Parts.{pack_doc_sign, pack_statistics, pack_candidate}
use mitum_data_blocksign.Encoding.Data.{
  pack_bs_doc, pack_bc_user, pack_bc_land, pack_bc_voting, pack_bc_history, decode_info,
  decode_sign, decode_signers, decode_candidates, unpack_bs_doc, unpack_bs_doc_fields,
  unpack_bc_user, unpack_bc_user_fields, unpack_bc_land, unpack_bc_land_fields, unpack_bc_voting,
  unpack_bc_voting_fields, unpack_bc_history, unpack_bc_history_fields,
}

-- The tree decodes to the value.
abbrev pub Decodes : {A : Type 0} → Encoder A → Tree → Hinted A → Type 0
Decodes enc t v = enc.decode (some t) ≡ ok (some v)

module _ {A : Type 0} ⦃a : Addresses A⦄ (enc : Encoder A)
    (addressed : (x : A) → enc.decode_address (a.address_string x) ≡ ok x)
    (sliced : (ts : List Tree)
      → enc.decode_slice (some (array (trees ts))) ≡ map_each (λ t. enc.decode (some t)) ts) where
  decode_each :
      {X : Type 0} (pack_x : X → Tree) (inject : X → Hinted A) (xs : List X)
      → All (λ x. Decodes enc (pack_x x) (inject x)) xs
      → map_each (λ t. enc.decode (some t)) (map pack_x xs) ≡ ok (map (λ x. some (inject x)) xs)
  unfolding map_each
  decode_each pack_x inject [] h = refl
  decode_each pack_x inject (x ∷ xs) h = rw (h.0, decode_each pack_x inject xs h.1) refl

  assert_each :
      {X : Type 0} (inject : X → Hinted A) (as_x : Option (Hinted A) → Outcome X)
      → ((x : X) → as_x (some (inject x)) ≡ ok x)
      → (xs : List X) → map_each as_x (map (λ x. some (inject x)) xs) ≡ ok xs
  unfolding map_each
  assert_each inject as_x h [] = refl
  assert_each inject as_x h (x ∷ xs) = rw (h x, assert_each inject as_x h xs) refl

  -- A slice of values whose trees decode is read back.
  pub slice-pack :
      {X : Type 0} (pack_x : X → Tree) (inject : X → Hinted A)
      (as_x : Option (Hinted A) → Outcome X)
      → ((x : X) → as_x (some (inject x)) ≡ ok x)
      → (xs : List X) → All (λ x. Decodes enc (pack_x x) (inject x)) xs
      → (enc.decode_slice (some (array (trees (map pack_x xs)))) >>= map_each as_x) ≡ ok xs
  slice-pack pack_x inject as_x h xs d =
      rw (sliced (map pack_x xs), decode_each pack_x inject xs d) (assert_each inject as_x h xs)

  pub unpack_bs_doc-pack :
      (d : BsDocData A)
      → Decodes enc (pack_doc_info d.info) (doc_info d.info)
      → Decodes enc (pack_doc_sign d.creator) (doc_sign d.creator)
      → All (λ s. Decodes enc (pack_doc_sign s) (doc_sign s)) d.signers
      → unpack_bs_doc enc d.hint (pack_bs_doc d) ≡ ok d
  unfolding unpack_bs_doc unpack_bs_doc_fields decode_info decode_sign decode_signers as_doc_info
      as_doc_sign pack_bs_doc get_field field_of same_name bytes_eq read_text read_big
  unpack_bs_doc-pack d info creator signers =
      rw
        (
          info,
          addressed d.owner,
          creator,
          slice-pack pack_doc_sign doc_sign as_doc_sign (λ s. refl) d.signers signers,
        )
        refl

  pub unpack_bc_user-pack :
      (d : BcUserData A)
      → Decodes enc (pack_doc_info d.info) (doc_info d.info)
      → Decodes enc (pack_statistics d.statistics) (statistics d.statistics)
      → unpack_bc_user enc d.hint (pack_bc_user d) ≡ ok d
  unfolding unpack_bc_user unpack_bc_user_fields decode_info as_doc_info as_statistics pack_bc_user
      get_field field_of same_name bytes_eq read_text read_uint
  unpack_bc_user-pack d info us = rw (info, addressed d.owner, us) refl

  pub unpack_bc_land-pack :
      (d : BcLandData A)
      → Decodes enc (pack_doc_info d.info) (doc_info d.info)
      → unpack_bc_land enc d.hint (pack_bc_land d) ≡ ok d
  unfolding unpack_bc_land unpack_bc_land_fields decode_info as_doc_info pack_bc_land get_field
      field_of same_name bytes_eq read_text read_uint
  unpack_bc_land-pack d info = rw (info, addressed d.owner, addressed d.account) refl

  pub unpack_bc_voting-pack :
      (d : BcVotingData A)
      → Decodes enc (pack_doc_info d.info) (doc_info d.info)
      → All (λ c. Decodes enc (pack_candidate c) (candidate c)) d.candidates
      → unpack_bc_voting enc d.hint (pack_bc_voting d) ≡ ok d
  unfolding unpack_bc_voting unpack_bc_voting_fields decode_info decode_candidates as_doc_info
      as_candidate pack_bc_voting get_field field_of same_name bytes_eq read_text read_uint
  unpack_bc_voting-pack d info candidates =
      rw
        (
          info,
          addressed d.owner,
          addressed d.account,
          slice-pack pack_candidate candidate as_candidate (λ c. refl) d.candidates candidates,
        )
        refl

  pub unpack_bc_history-pack :
      (d : BcHistoryData A)
      → Decodes enc (pack_doc_info d.info) (doc_info d.info)
      → unpack_bc_history enc d.hint (pack_bc_history d) ≡ ok d
  unfolding unpack_bc_history unpack_bc_history_fields decode_info as_doc_info pack_bc_history
      get_field field_of same_name bytes_eq read_text
  unpack_bc_history-pack d info = rw (info, addressed d.owner, addressed d.account) refl
