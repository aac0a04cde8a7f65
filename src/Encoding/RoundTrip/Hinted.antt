-- ===== src/Encoding/RoundTrip/Hinted.antt =====
-- Every value that an encoder tells apart by its hint.
use Prim.Native.String.{String}
use mitum_data_blocksign.Prelude.{
  ℕ, suc, some, List, map_each, ◌≡◌, refl, sym, ap, ◌∙◌, ok, All, All-map, bytes_eq,
}
use mitum_data_blocksign.Mitum.{Addresses}
use mitum_data_blocksign.DocId.{DocId, DocIdKind, bs, user, land, voting, history, doc_id_type}
use mitum_data_blocksign.DocInfo.{DocInfo}
use mitum_data_blocksign.DocData.{
  DocumentData, bs_doc, bc_user, bc_land, bc_voting, bc_history, hint_of,
}
use mitum_data_blocksign.Encoding.{Tree, array, trees, same_name, field_of, get_field, read_text}
use mitum_data_blocksign.Encoding.Hinted.{
  Hinted, Encoder, doc_id, doc_info, doc_sign, statistics, candidate, data_of, create_item,
  update_item, sign_item, as_data,
}
use mitum_data_blocksign.Encoding.Ids.{pack_doc_id, pack_doc_info}
use mitum_data_blocksign.Encoding.Parts.{pack_doc_sign, pack_candidate, pack_statistics}
use mitum_data_blocksign.Encoding.Data.{pack_data}
use mitum_data_blocksign.Encoding.Facts.{
  decode_data, pack_create_item, unpack_create_item, unpack_create_item_fields, pack_update_item,
  unpack_update_item, unpack_update_item_fields, pack_sign_item, unpack_sign_item,
  unpack_sign_item_fields,
}
use mitum_data_blocksign.Encoding.Hinters.{
  a_doc_id, find_hinter, hinters, registered_as, packed_hint, unpack_as, pack, InfoPackable,
  DataPackable, Packable, EncoderLaws,
}
use mitum_data_blocksign.Encoding.RoundTrip.Parts.{
  unpack_doc_id-pack, unpack_statistics-pack, unpack_doc_sign-pack, unpack_candidate-pack,
  unpack_doc_info-pack,
}
use mitum_data_blocksign.Encoding.RoundTrip.Data.{
  Decodes, unpack_bs_doc-pack, unpack_bc_user-pack, unpack_bc_land-pack, unpack_bc_voting-pack,
  unpack_bc_history-pack,
}

registered_id :
    (k : DocIdKind) (ty : String) → ty ≡ doc_id_type k → find_hinter ty hinters ≡ some (a_doc_id k)
unfolding find_hinter
registered_id bs ty h = rw h refl
registered_id user ty h = rw h refl
registered_id land ty h = rw h refl
registered_id voting ty h = rw h refl
registered_id history ty h = rw h refl

module _ {A : Type 0} where
  -- Each type is registered under the hint of its constructor.
  pub registered-Packable :
      (v : Hinted A) → Packable v → find_hinter (packed_hint v).ty hinters ≡ some (registered_as v)
  unfolding find_hinter registered_as packed_hint hint_of
  registered-Packable (doc_id i) h = registered_id i.kind i.hint.ty h
  registered-Packable (doc_info i) h = rw (h.0) refl
  registered-Packable (doc_sign s) h = refl
  registered-Packable (statistics s) h = refl
  registered-Packable (candidate c) h = rw h refl
  registered-Packable (data_of (bs_doc d)) h = rw (h.0) refl
  registered-Packable (data_of (bc_user d)) h = rw (h.0) refl
  registered-Packable (data_of (bc_land d)) h = rw (h.0) refl
  registered-Packable (data_of (bc_voting d)) h = rw (h.0) refl
  registered-Packable (data_of (bc_history d)) h = rw (h.0) refl
  registered-Packable (create_item i) h = rw (h.0) refl
  registered-Packable (update_item i) h = rw (h.0) refl
  registered-Packable (sign_item i) h = rw h refl

module _ {A : Type 0} ⦃a : Addresses A⦄ where
  -- The encoder decodes what the value holds.
  abbrev pub PartsDecode : Encoder A → Hinted A → Type 0
  PartsDecode enc (doc_info i) =
      (x : DocId) × (i.id ≡ some x) × Decodes enc (pack_doc_id x) (doc_id x)
  PartsDecode enc (data_of (bs_doc d)) =
      Decodes enc (pack_doc_info d.info) (doc_info d.info)
      × Decodes enc (pack_doc_sign d.creator) (doc_sign d.creator)
      × All (λ s. Decodes enc (pack_doc_sign s) (doc_sign s)) d.signers
  PartsDecode enc (data_of (bc_user d)) =
      Decodes enc (pack_doc_info d.info) (doc_info d.info)
      × Decodes enc (pack_statistics d.statistics) (statistics d.statistics)
  PartsDecode enc (data_of (bc_land d)) = Decodes enc (pack_doc_info d.info) (doc_info d.info)
  PartsDecode enc (data_of (bc_voting d)) =
      Decodes enc (pack_doc_info d.info) (doc_info d.info)
      × All (λ c. Decodes enc (pack_candidate c) (candidate c)) d.candidates
  PartsDecode enc (data_of (bc_history d)) = Decodes enc (pack_doc_info d.info) (doc_info d.info)
  PartsDecode enc (create_item i) = Decodes enc (pack_data i.doc) (data_of i.doc)
  PartsDecode enc (update_item i) = Decodes enc (pack_data i.doc) (data_of i.doc)
  PartsDecode enc _ = Unit

  module _ (enc : Encoder A) (addressed : (x : A) → enc.decode_address (a.address_string x) ≡ ok x)
      (sliced : (ts : List Tree)
        → enc.decode_slice (some (array (trees ts))) ≡ map_each (λ t. enc.decode (some t)) ts) where
    -- A value is unpacked where the encoder decodes what it holds.
    pub unpack_as-pack :
        (v : Hinted A)
        → Packable v
        → PartsDecode enc v
        → unpack_as enc (registered_as v) (packed_hint v) (pack v) ≡ ok v
    unfolding unpack_as registered_as packed_hint pack pack_data hint_of decode_data as_data
        get_field field_of same_name bytes_eq read_text unpack_create_item unpack_create_item_fields
        pack_create_item unpack_update_item unpack_update_item_fields pack_update_item
        unpack_sign_item unpack_sign_item_fields pack_sign_item
    unpack_as-pack (doc_id i) h p = rw (unpack_doc_id-pack i) refl
    unpack_as-pack (doc_info i) h (x, e, p) = rw (unpack_doc_info-pack enc i x e p) refl
    unpack_as-pack (doc_sign s) h p =
        rw (unpack_doc_sign-pack enc addressed s)
          (ap (λ k. ok (doc_sign (record s { hint = k }))) (sym h))
    unpack_as-pack (statistics us) h p =
        rw (unpack_statistics-pack us) (ap (λ k. ok (statistics (record us { hint = k }))) (sym h))
    unpack_as-pack (candidate c) h p = rw (unpack_candidate-pack enc addressed c) refl
    unpack_as-pack (data_of (bs_doc d)) h p =
        rw (unpack_bs_doc-pack enc addressed sliced d p.0 p.1 p.2) refl
    unpack_as-pack (data_of (bc_user d)) h p =
        rw (unpack_bc_user-pack enc addressed sliced d p.0 p.1) refl
    unpack_as-pack (data_of (bc_land d)) h p =
        rw (unpack_bc_land-pack enc addressed sliced d p) refl
    unpack_as-pack (data_of (bc_voting d)) h p =
        rw (unpack_bc_voting-pack enc addressed sliced d p.0 p.1) refl
    unpack_as-pack (data_of (bc_history d)) h p =
        rw (unpack_bc_history-pack enc addressed sliced d p) refl
    unpack_as-pack (create_item i) h p = rw p refl
    unpack_as-pack (update_item i) h p = rw p refl
    unpack_as-pack (sign_item i) h p = rw (addressed i.owner) refl

  -- Encoders of which each decodes the values whose parts the one before it decodes.
  module _ (encs : ℕ → Encoder A)
      (step : (n : ℕ) (v : Hinted A)
        → Packable v
        → PartsDecode (encs n) v
        → Decodes (encs (suc n)) (pack v) v) where
    info_decoded :
        (n : ℕ) (i : DocInfo)
        → InfoPackable i
        → Decodes (encs (suc (suc n))) (pack_doc_info i) (doc_info i)
    unfolding pack
    info_decoded n i h =
        let (ty, x, e, p) = h in step (suc n) (doc_info i) h (x, e, step n (doc_id x) p tt)

    data_parts :
        (n : ℕ) (d : DocumentData A) → DataPackable d → PartsDecode (encs (suc (suc n))) (data_of d)
    unfolding pack
    data_parts n (bs_doc d) h = (
      info_decoded n d.info h.1,
      step (suc n) (doc_sign d.creator) h.2 tt,
      All-map (λ s e. step (suc n) (doc_sign s) e tt) d.signers h.3,
    )
    data_parts n (bc_user d) h =
        (info_decoded n d.info h.1, step (suc n) (statistics d.statistics) h.2 tt)
    data_parts n (bc_land d) h = info_decoded n d.info h.1
    data_parts n (bc_voting d) h = (
      info_decoded n d.info h.1,
      All-map (λ c e. step (suc n) (candidate c) e tt) d.candidates h.2,
    )
    data_parts n (bc_history d) h = info_decoded n d.info h.1

    -- Three encoders decode all that a value holds.
    pub parts_decoded :
        (n : ℕ) (v : Hinted A) → Packable v → PartsDecode (encs (suc (suc (suc n)))) v
    unfolding pack
    parts_decoded n (doc_id i) h = tt
    parts_decoded n (doc_info i) h =
        let (ty, x, e, p) = h in (x, e, step (suc (suc n)) (doc_id x) p tt)
    parts_decoded n (doc_sign s) h = tt
    parts_decoded n (statistics s) h = tt
    parts_decoded n (candidate c) h = tt
    parts_decoded n (data_of d) h = data_parts (suc n) d h
    parts_decoded n (create_item i) h =
        step (suc (suc n)) (data_of i.doc) h.1 (data_parts n i.doc h.1)
    parts_decoded n (update_item i) h =
        step (suc (suc n)) (data_of i.doc) h.1 (data_parts n i.doc h.1)
    parts_decoded n (sign_item i) h = tt

module _ {A : Type 0} ⦃a : Addresses A⦄ (enc : Encoder A) (laws : EncoderLaws enc) where
  decodes : (v : Hinted A) → Packable v → PartsDecode enc v → Decodes enc (pack v) v
  decodes v h p =
      laws.decode_packed v h (registered-Packable v h)
      ∙ rw (unpack_as-pack enc laws.decode_address_string laws.decode_array v h p) refl

  -- What the package packs, the encoder unpacks: ids, infos, signatures, statistics, candidates, the
  -- five kinds of document data and the items of facts come back as they were, where their hints are
  -- those of their types, those of signatures and statistics being the constants that their `Hint`
  -- returns, and their infos have ids.
  pub decode-pack : (v : Hinted A) → Packable v → enc.decode (some (pack v)) ≡ ok (some v)
  decode-pack v h = decodes v h (parts_decoded (λ n. enc) (λ n w k p. decodes w k p) 0 v h)
