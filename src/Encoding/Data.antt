-- ===== src/Encoding/Data.antt =====
-- The encoded forms of document data and of `Document`.
use mitum_data_blocksign.Prelude.{ℕ, ℤ, Bytes, Option, List, map, map_each, ok, ◌>>=◌}
use mitum_data_blocksign.Mitum.{Outcome, Hint, Addresses}
use mitum_data_blocksign.DocInfo.{DocInfo}
use mitum_data_blocksign.DocParts.{DocSign, VotingCandidate}
use mitum_data_blocksign.DocData.{
  DocumentData, BsDocData, BcUserData, BcLandData, BcVotingData, BcHistoryData, bs_doc, bc_user,
  bc_land, bc_voting, bc_history, Document,
}
use mitum_data_blocksign.Encoding.{
  Tree, text, uint, big, array, trees, object, no_fields, field, get_field, read_text, read_uint,
  read_big,
}
use mitum_data_blocksign.Encoding.Hinted.{
  Encoder, as_doc_info, as_doc_sign, as_statistics, as_candidate, as_data,
}
use mitum_data_blocksign.Encoding.Ids.{pack_doc_info}
use mitum_data_blocksign.Encoding.Parts.{pack_doc_sign, pack_candidate, pack_statistics}

module _ {A : Type 0} ⦃a : Addresses A⦄ where
  -- `MarshalJSON` of the five kinds
  unfoldable pub pack_bs_doc : BsDocData A → Tree
  pack_bs_doc d = object d.hint (
      field "info" (pack_doc_info d.info) (
        field "owner" (text (a.address_string d.owner)) (
          field "filehash" (text d.file_hash) (
            field "creator" (pack_doc_sign d.creator) (
              field "title" (text d.title) (
                field "size" (big d.size)
                  (field "signers" (array (trees (map pack_doc_sign d.signers))) no_fields)))))))

  unfoldable pub pack_bc_user : BcUserData A → Tree
  pack_bc_user d = object d.hint (
      field "info" (pack_doc_info d.info) (
        field "owner" (text (a.address_string d.owner)) (
          field "gold" (uint d.gold) (
            field "bankgold" (uint d.bankgold)
              (field "statistics" (pack_statistics d.statistics) no_fields)))))

  unfoldable pub pack_bc_land : BcLandData A → Tree
  pack_bc_land d = object d.hint (
      field "info" (pack_doc_info d.info) (
        field "owner" (text (a.address_string d.owner)) (
          field "address" (text d.address) (
            field "area" (text d.area) (
              field "renter" (text d.renter) (
                field "account" (text (a.address_string d.account)) (
                  field "rentdate" (text d.rentdate)
                    (field "periodday" (uint d.periodday) no_fields))))))))

  unfoldable pub pack_bc_voting : BcVotingData A → Tree
  pack_bc_voting d = object d.hint (
      field "info" (pack_doc_info d.info) (
        field "owner" (text (a.address_string d.owner)) (
          field "round" (uint d.round) (
            field "endvotetime" (text d.end_vote_time) (
              field "candidates" (array (trees (map pack_candidate d.candidates))) (
                field "bossname" (text d.bossname) (
                  field "account" (text (a.address_string d.account))
                    (field "termofoffice" (text d.termofoffice) no_fields))))))))

  unfoldable pub pack_bc_history : BcHistoryData A → Tree
  pack_bc_history d = object d.hint (
      field "info" (pack_doc_info d.info) (
        field "owner" (text (a.address_string d.owner)) (
          field "name" (text d.name) (
            field "account" (text (a.address_string d.account)) (
              field "date" (text d.date) (
                field "usage" (text d.usage)
                  (field "application" (text d.application) no_fields)))))))

  unfoldable pub pack_data : DocumentData A → Tree
  pack_data (bs_doc d) = pack_bs_doc d
  pack_data (bc_user d) = pack_bc_user d
  pack_data (bc_land d) = pack_bc_land d
  pack_data (bc_voting d) = pack_bc_voting d
  pack_data (bc_history d) = pack_bc_history d

  -- `Document.MarshalJSON`
  unfoldable pub pack_document : Document A → Tree
  pack_document d = object d.hint (field "documentdata" (pack_data d.content) no_fields)

module _ {A : Type 0} (enc : Encoder A) where
  unfoldable pub decode_info : Option Tree → Outcome DocInfo
  decode_info b = do hinter ← enc.decode b; as_doc_info hinter

  unfoldable pub decode_sign : Option Tree → Outcome (DocSign A)
  decode_sign b = do hinter ← enc.decode b; as_doc_sign hinter

  -- The loops over `DecodeSlice`
  unfoldable pub decode_signers : Option Tree → Outcome (List (DocSign A))
  decode_signers b = do hits ← enc.decode_slice b; map_each as_doc_sign hits

  unfoldable pub decode_candidates : Option Tree → Outcome (List (VotingCandidate A))
  decode_candidates b = do hits ← enc.decode_slice b; map_each as_candidate hits

  -- `BSDocData.unpack`, which decodes the creator twice
  unfoldable pub unpack_bs_doc_fields :
      Hint
      → Option Tree
      → Bytes
      → Bytes
      → Option Tree
      → Bytes
      → ℤ
      → Option Tree
      → Outcome (BsDocData A)
  unpack_bs_doc_fields h bdi ow sfh bcr stl sz bsg = do
    i ← decode_info bdi
    x ← enc.decode_address ow
    _ ← decode_sign bcr
    cr ← decode_sign bcr
    signers ← decode_signers bsg
    ok (record {
      hint = h;
      info = i;
      owner = x;
      file_hash = sfh;
      creator = cr;
      title = stl;
      size = sz;
      signers = signers;
    })

  -- `BSDocData.UnpackJSON`
  unfoldable pub unpack_bs_doc : Hint → Tree → Outcome (BsDocData A)
  unpack_bs_doc h t = do
    ow ← read_text (get_field "owner" t)
    fh ← read_text (get_field "filehash" t)
    tl ← read_text (get_field "title" t)
    sz ← read_big (get_field "size" t)
    unpack_bs_doc_fields h (get_field "info" t) ow fh (get_field "creator" t) tl sz
        (get_field "signers" t)

  -- `BCUserData.unpack`
  unfoldable pub unpack_bc_user_fields :
      Hint → Option Tree → Bytes → ℕ → ℕ → Option Tree → Outcome (BcUserData A)
  unpack_bc_user_fields h di ow gd bg st = do
    i ← decode_info di
    x ← enc.decode_address ow
    hinter ← enc.decode st
    us ← as_statistics hinter
    ok (record { hint = h; info = i; owner = x; gold = gd; bankgold = bg; statistics = us })

  -- `BCUserData.UnpackJSON`
  unfoldable pub unpack_bc_user : Hint → Tree → Outcome (BcUserData A)
  unpack_bc_user h t = do
    ow ← read_text (get_field "owner" t)
    gd ← read_uint (get_field "gold" t)
    bg ← read_uint (get_field "bankgold" t)
    unpack_bc_user_fields h (get_field "info" t) ow gd bg (get_field "statistics" t)

  -- `BCLandData.unpack`
  unfoldable pub unpack_bc_land_fields :
      Hint
      → Option Tree
      → Bytes
      → Bytes
      → Bytes
      → Bytes
      → Bytes
      → Bytes
      → ℕ
      → Outcome (BcLandData A)
  unpack_bc_land_fields h di ow ad ar rt ac rd pd = do
    i ← decode_info di
    x ← enc.decode_address ow
    y ← enc.decode_address ac
    ok (record {
      hint = h;
      info = i;
      owner = x;
      address = ad;
      area = ar;
      renter = rt;
      account = y;
      rentdate = rd;
      periodday = pd;
    })

  -- `BCLandData.UnpackJSON`
  unfoldable pub unpack_bc_land : Hint → Tree → Outcome (BcLandData A)
  unpack_bc_land h t = do
    ow ← read_text (get_field "owner" t)
    ad ← read_text (get_field "address" t)
    ar ← read_text (get_field "area" t)
    rt ← read_text (get_field "renter" t)
    ac ← read_text (get_field "account" t)
    rd ← read_text (get_field "rentdate" t)
    pd ← read_uint (get_field "periodday" t)
    unpack_bc_land_fields h (get_field "info" t) ow ad ar rt ac rd pd

  -- `BCVotingData.unpack`
  unfoldable pub unpack_bc_voting_fields :
      Hint
      → Option Tree
      → Bytes
      → ℕ
      → Bytes
      → Option Tree
      → Bytes
      → Bytes
      → Bytes
      → Outcome (BcVotingData A)
  unpack_bc_voting_fields h bdi ow rd vt bcd bn ac tm = do
    i ← decode_info bdi
    x ← enc.decode_address ow
    y ← enc.decode_address ac
    candidates ← decode_candidates bcd
    ok (record {
      hint = h;
      info = i;
      owner = x;
      round = rd;
      end_vote_time = vt;
      candidates = candidates;
      bossname = bn;
      account = y;
      termofoffice = tm;
    })

  -- `BCVotingData.UnpackJSON`
  unfoldable pub unpack_bc_voting : Hint → Tree → Outcome (BcVotingData A)
  unpack_bc_voting h t = do
    ow ← read_text (get_field "owner" t)
    rd ← read_uint (get_field "round" t)
    vt ← read_text (get_field "endvotetime" t)
    bn ← read_text (get_field "bossname" t)
    ac ← read_text (get_field "account" t)
    tm ← read_text (get_field "termofoffice" t)
    unpack_bc_voting_fields h (get_field "info" t) ow rd vt (get_field "candidates" t) bn ac tm

  -- `BCHistoryData.unpack`
  unfoldable pub unpack_bc_history_fields :
      Hint → Option Tree → Bytes → Bytes → Bytes → Bytes → Bytes → Bytes → Outcome (BcHistoryData A)
  unpack_bc_history_fields h bdi ow snm ac sdt sus sap = do
    i ← decode_info bdi
    x ← enc.decode_address ow
    y ← enc.decode_address ac
    ok (record {
      hint = h;
      info = i;
      owner = x;
      name = snm;
      account = y;
      date = sdt;
      usage = sus;
      application = sap;
    })

  -- `BCHistoryData.UnpackJSON`
  unfoldable pub unpack_bc_history : Hint → Tree → Outcome (BcHistoryData A)
  unpack_bc_history h t = do
    ow ← read_text (get_field "owner" t)
    nm ← read_text (get_field "name" t)
    ac ← read_text (get_field "account" t)
    dt ← read_text (get_field "date" t)
    us ← read_text (get_field "usage" t)
    ap ← read_text (get_field "application" t)
    unpack_bc_history_fields h (get_field "info" t) ow nm ac dt us ap

  -- `Document.UnpackJSON` with `unpack`
  unfoldable pub unpack_document : Hint → Tree → Outcome (Document A)
  unpack_document h t = do
    hinter ← enc.decode (get_field "documentdata" t)
    d ← as_data hinter
    ok (record { hint = h; content = d })
