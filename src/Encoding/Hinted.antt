-- ===== src/Encoding/Hinted.antt =====
-- The values that an encoder tells apart by their hints, and the encoder, which is mitum's.
use mitum_data_blocksign.Prelude.{Bytes, Option, some, List, ok, err}
use mitum_data_blocksign.Error.{wrong_hinted}
use mitum_data_blocksign.Mitum.{Outcome}
use mitum_data_blocksign.DocId.{DocId}
use mitum_data_blocksign.DocInfo.{DocInfo}
use mitum_data_blocksign.DocParts.{UserStatistics, DocSign, VotingCandidate}
use mitum_data_blocksign.DocData.{DocumentData}
use mitum_data_blocksign.Fact.{CreateDocumentsItem, UpdateDocumentsItem, SignDocumentItem}
use mitum_data_blocksign.Encoding.{Format, Tree}

pub data Hinted (A : Type 0) : Type 0 where
  doc_id : DocId → Hinted A
  doc_info : DocInfo → Hinted A
  doc_sign : DocSign A → Hinted A
  statistics : UserStatistics → Hinted A
  candidate : VotingCandidate A → Hinted A
  data_of : DocumentData A → Hinted A
  create_item : CreateDocumentsItem A → Hinted A
  update_item : UpdateDocumentsItem A → Hinted A
  sign_item : SignDocumentItem A → Hinted A

pub record Encoder (A : Type 0) : Type 0 where
  pub format : Format
  -- `enc.Decode`: nil, or the value; a missing field is an empty slice of bytes.
  pub decode : Option Tree → Outcome (Option (Hinted A))
  -- `enc.DecodeSlice`
  pub decode_slice : Option Tree → Outcome (List (Option (Hinted A)))
  -- `base.AddressDecoder.Encode`, on the text of the address
  pub decode_address : Bytes → Outcome A

-- The type assertions of the `unpack` methods, on a hinter that may be nil.
module _ {A : Type 0} where
  unfoldable pub as_doc_id : Option (Hinted A) → Outcome DocId
  as_doc_id (some (doc_id i)) = ok i
  as_doc_id _ = err wrong_hinted

  unfoldable pub as_doc_info : Option (Hinted A) → Outcome DocInfo
  as_doc_info (some (doc_info i)) = ok i
  as_doc_info _ = err wrong_hinted

  unfoldable pub as_doc_sign : Option (Hinted A) → Outcome (DocSign A)
  as_doc_sign (some (doc_sign s)) = ok s
  as_doc_sign _ = err wrong_hinted

  unfoldable pub as_statistics : Option (Hinted A) → Outcome UserStatistics
  as_statistics (some (statistics s)) = ok s
  as_statistics _ = err wrong_hinted

  unfoldable pub as_candidate : Option (Hinted A) → Outcome (VotingCandidate A)
  as_candidate (some (candidate c)) = ok c
  as_candidate _ = err wrong_hinted

  unfoldable pub as_data : Option (Hinted A) → Outcome (DocumentData A)
  as_data (some (data_of d)) = ok d
  as_data _ = err wrong_hinted

  unfoldable pub as_create_item : Option (Hinted A) → Outcome (CreateDocumentsItem A)
  as_create_item (some (create_item i)) = ok i
  as_create_item _ = err wrong_hinted

  unfoldable pub as_update_item : Option (Hinted A) → Outcome (UpdateDocumentsItem A)
  as_update_item (some (update_item i)) = ok i
  as_update_item _ = err wrong_hinted

  unfoldable pub as_sign_item : Option (Hinted A) → Outcome (SignDocumentItem A)
  as_sign_item (some (sign_item i)) = ok i
  as_sign_item _ = err wrong_hinted
