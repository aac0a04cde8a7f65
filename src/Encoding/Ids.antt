-- ===== src/Encoding/Ids.antt =====
-- The encoded forms of document ids and infos.
use Prim.Native.String.{String}
use mitum_data_blocksign.Prelude.{Option, none, some, ok, ◌>>=◌}
use mitum_data_blocksign.Mitum.{Outcome, Hint}
use mitum_data_blocksign.DocId.{DocId, DocIdKind}
use mitum_data_blocksign.DocInfo.{DocInfo}
use mitum_data_blocksign.Encoding.{
  Format, json, bson, Tree, null, text, type_name, object, no_fields, field, get_field, read_text,
  read_type,
}
use mitum_data_blocksign.Encoding.Hinted.{Encoder, as_doc_id}

-- `MarshalJSON` of the five types of id
unfoldable pub pack_doc_id : DocId → Tree
pack_doc_id i = object i.hint (field "id" (text i.s) no_fields)

-- `UnpackJSON` of each, with `unpack`; the encoder has made a value of the type, with its hint.
unfoldable pub unpack_doc_id : DocIdKind → Hint → Tree → Outcome DocId
unpack_doc_id kind h t = do
  s ← read_text (get_field "id" t)
  ok (record { kind = kind; hint = h; s = s })

-- A nil interface is packed as null.
unfoldable pub pack_optional_id : Option DocId → Tree
pack_optional_id none = null
pack_optional_id (some i) = pack_doc_id i

-- `DocInfo.MarshalJSON`
unfoldable pub pack_doc_info : DocInfo → Tree
pack_doc_info i =
    object i.hint
      (field "docid" (pack_optional_id i.id) (field "doctype" (type_name i.doc_type) no_fields))

-- The tag of the type in `DocInfoJSONUnpacker` and `DocInfoBSONUnpacker`
unfoldable pub doc_type_tag : Format → String
doc_type_tag json = "docType"
doc_type_tag bson = "doctype"

module _ {A : Type 0} (enc : Encoder A) where
  -- `DocInfo.unpack`
  unfoldable pub unpack_doc_info_fields : Hint → Option Tree → String → Outcome DocInfo
  unpack_doc_info_fields h bi st = do
    hinter ← enc.decode bi
    id ← as_doc_id hinter
    ok (record { hint = h; id = some id; doc_type = st })

  -- `DocInfo.UnpackJSON`
  unfoldable pub unpack_doc_info : Hint → Tree → Outcome DocInfo
  unpack_doc_info h t = do
    st ← read_type (get_field (doc_type_tag enc.format) t)
    unpack_doc_info_fields h (get_field "docid" t) st
