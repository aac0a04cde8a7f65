-- ===== src/Tests/Ids.antt =====
-- Ids of documents and keys of states, at the id of a blocksign document.
use mitum_data_blocksign.Prelude.{false, ◌≢◌, codes, true, some, ok, ◌≡◌, ◌↔◌, refl}
use mitum_data_blocksign.DocId.{
  DocId, bs, user, bs_doc_id_type, parse_doc_id, new_doc_id, new_kind_doc_id, is_valid, equal,
  argument_kind,
}
use mitum_data_blocksign.DocId.Parse.{Splits, parse_doc_id_iff}
use mitum_data_blocksign.DocId.Kinds.{
  Builds, NewCases, Made, new_doc_id-cases, doc_id_is_valid_iff, equal_iff,
}
use mitum_data_blocksign.State.{
  state_key_document_data, is_state_document_data_key, state_key_documents, is_state_documents_key,
}
use mitum_data_blocksign.State.Keys.{state_keys_apart}
use mitum_data_blocksign.Tests.Samples.{text_addresses, first_id, alice}

parse_doc_id_iff_example :
    (parse_doc_id first_id ≡ ok (codes "1", bs_doc_id_type))
    ↔ Splits first_id (codes "1") bs_doc_id_type
parse_doc_id_iff_example = parse_doc_id_iff first_id (codes "1") bs_doc_id_type

new_doc_id-cases_example : NewCases first_id
new_doc_id-cases_example = new_doc_id-cases first_id

abbrev first : DocId
first = new_kind_doc_id bs first_id

doc_id_is_valid_iff_example :
    (is_valid first ≡ ok tt) ↔ ((d : DocId) × Builds first.s d × (new_doc_id first.s ≡ some d))
doc_id_is_valid_iff_example = doc_id_is_valid_iff first

-- A blocksign id and the argument that its method `Equal` takes.
abbrev argument : DocId
argument = new_kind_doc_id user first_id

argument-kind : argument.kind ≡ argument_kind first.kind
unfolding new_kind_doc_id
argument-kind = refl

first-Made : Made first
unfolding new_kind_doc_id
first-Made = refl

argument-Made : Made argument
unfolding new_kind_doc_id
argument-Made = refl

equal_iff_example :
    (equal first argument argument-kind ≡ true)
    ↔ ((first.kind ≢ bs) × (first.s ≡ argument.s) × (is_valid argument ≡ ok tt))
equal_iff_example = equal_iff first argument argument-kind first-Made argument-Made

state_keys_apart_example :
    (is_state_document_data_key (state_key_document_data first_id) ≡ true)
    × (is_state_documents_key (state_key_document_data first_id) ≡ false)
    × (is_state_documents_key (state_key_documents alice) ≡ true)
    × (is_state_document_data_key (state_key_documents alice) ≡ false)
    × (state_key_document_data first_id ≢ state_key_documents alice)
state_keys_apart_example = state_keys_apart first_id alice
