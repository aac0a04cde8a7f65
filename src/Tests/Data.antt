-- ===== src/Tests/Data.antt =====
-- Document data and facts.
use mathlib.Core.List.Permᴰ
use mitum_data_blocksign.Prelude.{
  Bytes, codes, bytes_eq, bytes_eq_ne, true, false, List, [], ◌∷◌, ok, ◌≡◌, ◌≢◌, ◌↔◌, refl,
  for_each, map_each, sort_slice, bytes_lt,
}
use mitum_data_blocksign.Mitum.{new_hint}
use mitum_data_blocksign.DocInfo.{id_string}
use mitum_data_blocksign.DocInfo
use mitum_data_blocksign.DocParts.{
  DocSign, VotingCandidate, new_doc_sign, new_voting_candidate, sign_is_valid, sign_bytes,
}
use mitum_data_blocksign.DocData.{
  BsDocData, BcVotingData, bs_doc, bc_voting, new_bc_voting_data, bs_doc_is_valid, bs_doc_bytes,
  generate_hash,
}
use mitum_data_blocksign.DocData
use mitum_data_blocksign.DocData.Checks.{Valid, document_is_valid_iff}
use mitum_data_blocksign.DocData.Order.{generate_hash-perm}
use mitum_data_blocksign.Fact.{
  Fact, CreateDocumentsItem, UpdateDocumentsItem, SignDocumentItem, create_item_is_valid,
  update_item_is_valid, sign_item_is_valid, create_item_bytes, update_item_bytes, sign_item_bytes,
  fact_bytes, generate_fact_hash, check_items, check_size, check_hash, create_fact_is_valid,
  update_fact_is_valid, sign_fact_is_valid,
}
use mitum_data_blocksign.Fact.Limits.{Limited, facts-Limited}
use mitum_data_blocksign.Tests.Samples.{
  text_addresses, sample_util, sample_util_laws, alice, bob, mcc, first_id, first_info, first_data,
  first_doc, from_ok,
}

document_is_valid_iff_example : (DocData.is_valid first_doc ≡ ok tt) ↔ Valid first_doc
document_is_valid_iff_example = document_is_valid_iff first_doc

abbrev other_order : List (DocSign Bytes)
other_order = new_doc_sign bob (codes "b") false ∷ new_doc_sign alice (codes "a") true ∷ []

bob-alice : bob ≢ alice
unfolding bytes_eq
bob-alice = bytes_eq_ne bob alice refl

abbrev first_candidate : VotingCandidate Bytes
first_candidate = new_voting_candidate alice (codes "a") (codes "m") 3

abbrev second_candidate : VotingCandidate Bytes
second_candidate = new_voting_candidate bob (codes "b") (codes "n") 4

abbrev vote : BcVotingData Bytes
vote =
    new_bc_voting_data first_info alice 1 (codes "e") (first_candidate ∷ second_candidate ∷ [])
      (codes "x") alice (codes "y")

generate_hash-perm_example :
    (generate_hash (bs_doc first_data)
      ≡ generate_hash (bs_doc (record first_data { signers = other_order })))
    × (generate_hash (bc_voting vote)
        ≡ generate_hash
            (bc_voting (record vote { candidates = second_candidate ∷ first_candidate ∷ [] })))
generate_hash-perm_example =
    generate_hash-perm first_data other_order vote (second_candidate ∷ first_candidate ∷ [])
      (Permᴰ.swap refl refl) ((bob-alice, tt), (tt, tt)) (Permᴰ.swap refl refl)

abbrev fact_of : {I : Type 0} → List I → Bytes → Fact Bytes I
fact_of items h = record {
  hint = new_hint "fact";
  h = h;
  token = codes "t";
  sender = alice;
  items = items;
}

abbrev create_items : List (CreateDocumentsItem Bytes)
create_items = record { hint = new_hint "item"; doc = first_doc; cid = mcc } ∷ []

abbrev create_fact : Fact Bytes (CreateDocumentsItem Bytes)
create_fact =
    fact_of create_items
      (from_ok [] (generate_fact_hash create_item_bytes (fact_of create_items [])))

create_fact-valid : create_fact_is_valid (λ f. ok tt) create_fact ≡ ok tt
unfolding create_fact_is_valid check_size check_items check_hash generate_fact_hash fact_bytes
    create_item_bytes create_item_is_valid DocData.is_valid bs_doc_is_valid DocInfo.is_valid
    sign_is_valid DocData.bytes bs_doc_bytes DocInfo.bytes sign_bytes sort_slice bytes_lt
    DocData.document_id DocInfo.document_id DocData.info id_string bytes_eq for_each map_each
create_fact-valid = refl

abbrev update_items : List (UpdateDocumentsItem Bytes)
update_items = record { hint = new_hint "item"; doc = first_doc; cid = mcc } ∷ []

abbrev update_fact : Fact Bytes (UpdateDocumentsItem Bytes)
update_fact =
    fact_of update_items
      (from_ok [] (generate_fact_hash update_item_bytes (fact_of update_items [])))

update_fact-valid : update_fact_is_valid (λ f. ok tt) update_fact ≡ ok tt
unfolding update_fact_is_valid check_size check_items check_hash generate_fact_hash fact_bytes
    update_item_bytes update_item_is_valid DocData.is_valid bs_doc_is_valid DocInfo.is_valid
    sign_is_valid DocData.bytes bs_doc_bytes DocInfo.bytes sign_bytes sort_slice bytes_lt
    DocData.document_id DocInfo.document_id DocData.info id_string bytes_eq for_each map_each
update_fact-valid = refl

abbrev sign_items : List (SignDocumentItem Bytes)
sign_items = record { hint = new_hint "item"; id = first_id; owner = alice; cid = mcc } ∷ []

abbrev sign_fact : Fact Bytes (SignDocumentItem Bytes)
sign_fact =
    fact_of sign_items (from_ok [] (generate_fact_hash sign_item_bytes (fact_of sign_items [])))

sign_fact-valid : sign_fact_is_valid (λ f. ok tt) sign_fact ≡ ok tt
unfolding sign_fact_is_valid check_size check_items check_hash generate_fact_hash fact_bytes
    sign_item_bytes sign_item_is_valid bytes_eq for_each map_each
sign_fact-valid = refl

facts-Limited_example :
    Limited 10
      (λ it. sample_util.check (create_item_is_valid it ∷ []))
      (λ it. DocData.document_id it.doc)
      create_items
    × Limited 10
        (λ it. sample_util.check (update_item_is_valid it ∷ []))
        (λ it. DocData.document_id it.doc)
        update_items
    × Limited 10 sign_item_is_valid (λ it. ok it.id) sign_items
facts-Limited_example =
    facts-Limited (λ f. ok tt) create_fact (λ f. ok tt) update_fact (λ f. ok tt) sign_fact
      create_fact-valid update_fact-valid sign_fact-valid
