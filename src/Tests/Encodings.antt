-- ===== src/Tests/Encodings.antt =====
-- An encoder for the round trips, in layers: each unpacks the values whose parts the one below decodes.
use mitum_data_blocksign.Prelude.{
  ℕ, zero, suc, Bytes, codes, Option, none, some, List, [], ◌∷◌, ◌≡◌, refl, sym, ap, ◌∙◌, ok, err,
  ◌>>=◌, map_each,
}
use mitum_data_blocksign.Error.{external, wrong_tree}
use mitum_data_blocksign.Mitum.{Outcome, Hint, new_hint}
use mitum_data_blocksign.DocData.{
  Document, new_document, bs_doc, bc_user, bc_land, bc_voting, bc_history, hint_of,
}
use mitum_data_blocksign.Fact.{
  Fact, CreateDocumentsItem, UpdateDocumentsItem, SignDocumentItem, create_documents_item_type,
  update_documents_item_type, sign_item_single_document_type,
}
use mitum_data_blocksign.Encoding.{
  Format, json, bson, Tree, array, object, Trees, no_trees, tree, trees,
}
use mitum_data_blocksign.Encoding.Hinted.{
  Hinted, Encoder, data_of, doc_id, doc_info, doc_sign, statistics, candidate, create_item,
  update_item, sign_item,
}
use mitum_data_blocksign.Encoding.Facts.{
  pack_fact, pack_create_item, pack_update_item, pack_sign_item, unpack_create_fact,
  unpack_update_fact, unpack_sign_fact, pack_inventory, unpack_inventory, decode_document,
}
use mitum_data_blocksign.Encoding.Ids.{pack_doc_id, pack_doc_info}
use mitum_data_blocksign.Encoding.Parts.{pack_doc_sign, pack_candidate, pack_statistics}
use mitum_data_blocksign.Encoding.Data.{
  pack_data, pack_bs_doc, pack_bc_user, pack_bc_land, pack_bc_voting, pack_bc_history,
  pack_document, unpack_document,
}
use mitum_data_blocksign.Encoding.Hinters.{
  Registered, hinters, find_hinter, registered_as, packed_hint, unpack_as, pack, Packable,
  EncoderLaws,
}
use mitum_data_blocksign.Encoding.RoundTrip.Data.{Decodes}
use mitum_data_blocksign.Encoding.RoundTrip.Hinted.{
  PartsDecode, unpack_as-pack, parts_decoded, registered-Packable, decode-pack,
}
use mitum_data_blocksign.Encoding.RoundTrip.Facts.{
  unpack_document-pack, unpack_facts-pack, unpack_inventory-pack,
}
use mitum_data_blocksign.Tests.Samples.{
  text_addresses, alice, mcc, first_id, first_doc, first_inventory,
}

unfoldable list_of : Trees → List Tree
list_of no_trees = []
list_of (tree t ts) = t ∷ list_of ts

unfoldable unpack_found :
    Encoder Bytes → Option Registered → Hint → Tree → Outcome (Option (Hinted Bytes))
unpack_found below none h t = err (external [])
unpack_found below (some r) h t = unpack_as below r h t >>= λ w. ok (some w)

unfoldable decode_with : Encoder Bytes → Option Tree → Outcome (Option (Hinted Bytes))
decode_with below none = ok none
decode_with below (some (object h fs)) =
    unpack_found below (find_hinter h.ty hinters) h (object h fs)
decode_with below (some _) = err wrong_tree

unfoldable slice_with :
    (Option Tree → Outcome (Option (Hinted Bytes)))
    → Option Tree
    → Outcome (List (Option (Hinted Bytes)))
slice_with decode none = ok []
slice_with decode (some (array ts)) = map_each (λ t. decode (some t)) (list_of ts)
slice_with decode (some _) = err wrong_tree

unfoldable layer : Format → ℕ → Encoder Bytes
layer f zero = record {
  format = f;
  decode = λ t. err wrong_tree;
  decode_slice = slice_with (λ t. err wrong_tree);
  decode_address = λ s. ok s;
}
layer f (suc n) = record {
  format = f;
  decode = decode_with (layer f n);
  decode_slice = slice_with (decode_with (layer f n));
  decode_address = λ s. ok s;
}

list_of-trees : (ts : List Tree) → list_of (trees ts) ≡ ts
unfolding list_of trees
list_of-trees [] = refl
list_of-trees (t ∷ ts) = ap (λ us. t ∷ us) (list_of-trees ts)

sliced :
    (f : Format) (n : ℕ) (ts : List Tree)
    → (layer f n).decode_slice (some (array (trees ts)))
      ≡ map_each (λ t. (layer f n).decode (some t)) ts
unfolding layer slice_with
sliced f zero ts = rw (list_of-trees ts) refl
sliced f (suc n) ts = rw (list_of-trees ts) refl

addressed : (f : Format) (n : ℕ) (x : Bytes) → (layer f n).decode_address x ≡ ok x
unfolding layer
addressed f zero x = refl
addressed f (suc n) x = refl

unpack_packed : Encoder Bytes → Hinted Bytes → Option Registered → Outcome (Option (Hinted Bytes))
unpack_packed below v r = unpack_found below r (packed_hint v) (pack v)

-- Every value is packed as an object under its hint.
decode_with-pack :
    (below : Encoder Bytes) (v : Hinted Bytes)
    → find_hinter (packed_hint v).ty hinters ≡ some (registered_as v)
    → decode_with below (some (pack v))
      ≡ (unpack_as below (registered_as v) (packed_hint v) (pack v) >>= λ w. ok (some w))
unfolding decode_with unpack_found unpack_packed pack pack_data packed_hint hint_of pack_doc_id
    pack_doc_info pack_doc_sign pack_statistics pack_candidate pack_bs_doc pack_bc_user pack_bc_land
    pack_bc_voting pack_bc_history pack_create_item pack_update_item pack_sign_item
decode_with-pack below (doc_id i) h = ap (unpack_packed below (doc_id i)) h
decode_with-pack below (doc_info i) h = ap (unpack_packed below (doc_info i)) h
decode_with-pack below (doc_sign s) h = ap (unpack_packed below (doc_sign s)) h
decode_with-pack below (statistics s) h = ap (unpack_packed below (statistics s)) h
decode_with-pack below (candidate c) h = ap (unpack_packed below (candidate c)) h
decode_with-pack below (data_of (bs_doc d)) h = ap (unpack_packed below (data_of (bs_doc d))) h
decode_with-pack below (data_of (bc_user d)) h = ap (unpack_packed below (data_of (bc_user d))) h
decode_with-pack below (data_of (bc_land d)) h = ap (unpack_packed below (data_of (bc_land d))) h
decode_with-pack below (data_of (bc_voting d)) h =
    ap (unpack_packed below (data_of (bc_voting d))) h
decode_with-pack below (data_of (bc_history d)) h =
    ap (unpack_packed below (data_of (bc_history d))) h
decode_with-pack below (create_item i) h = ap (unpack_packed below (create_item i)) h
decode_with-pack below (update_item i) h = ap (unpack_packed below (update_item i)) h
decode_with-pack below (sign_item i) h = ap (unpack_packed below (sign_item i)) h

steps :
    (f : Format) (n : ℕ) (v : Hinted Bytes)
    → Packable v
    → PartsDecode (layer f n) v
    → Decodes (layer f (suc n)) (pack v) v
unfolding layer
steps f n v h p =
    decode_with-pack (layer f n) v (registered-Packable v h)
    ∙ rw (unpack_as-pack (layer f n) (addressed f n) (sliced f n) v h p) refl

encoder_laws : (f : Format) → EncoderLaws (layer f 4)
encoder_laws f = record {
  decode_packed = λ v h r.
      steps f 3 v h (parts_decoded (layer f) (steps f) 0 v h)
      ∙ sym (
          rw
            (unpack_as-pack (layer f 4) (addressed f 4) (sliced f 4) v h
              (parts_decoded (layer f) (steps f) 1 v h))
            refl);
  decode_array = sliced f 4;
  decode_address_string = addressed f 4;
}

abbrev first_document : Document Bytes
first_document = new_document first_doc

abbrev created_fact : Fact Bytes (CreateDocumentsItem Bytes)
created_fact = record {
  hint = new_hint "mitum-blocksign-create-documents-operation-fact";
  h = codes "h";
  token = codes "t";
  sender = alice;
  items = record { hint = new_hint create_documents_item_type; doc = first_doc; cid = mcc } ∷ [];
}

abbrev updated_fact : Fact Bytes (UpdateDocumentsItem Bytes)
updated_fact = record {
  hint = new_hint "mitum-blockcity-update-documents-operation-fact";
  h = codes "h";
  token = codes "t";
  sender = alice;
  items = record { hint = new_hint update_documents_item_type; doc = first_doc; cid = mcc } ∷ [];
}

abbrev signed_fact : Fact Bytes (SignDocumentItem Bytes)
signed_fact = record {
  hint = new_hint "mitum-blocksign-sign-documents-operation-fact";
  h = codes "h";
  token = codes "t";
  sender = alice;
  items =
      record {
        hint = new_hint sign_item_single_document_type;
        id = first_id;
        owner = alice;
        cid = mcc;
      }
      ∷ [];
}

decode-pack_example :
    (layer json 4).decode (some (pack (data_of first_doc))) ≡ ok (some (data_of first_doc))
decode-pack_example =
    decode-pack (layer json 4) (encoder_laws json) (data_of first_doc)
      (refl, (refl, _, refl, refl), refl, (refl, (refl, tt)))

unpack_document-pack_example :
    (unpack_document (layer bson 4) first_document.hint (pack_document first_document)
      ≡ ok first_document)
    × (decode_document (layer bson 4) (some (pack_data first_doc)) ≡ ok (some first_doc))
unpack_document-pack_example =
    unpack_document-pack (layer bson 4) (encoder_laws bson) first_document
      (refl, (refl, _, refl, refl), refl, (refl, (refl, tt)))

unpack_facts-pack_example :
    (unpack_create_fact (layer json 4) created_fact.hint (pack_fact pack_create_item created_fact)
      ≡ ok created_fact)
    × (unpack_update_fact (layer json 4) updated_fact.hint (pack_fact pack_update_item updated_fact)
        ≡ ok updated_fact)
    × (unpack_sign_fact (layer json 4) signed_fact.hint (pack_fact pack_sign_item signed_fact)
        ≡ ok signed_fact)
unpack_facts-pack_example =
    unpack_facts-pack (layer json 4) (encoder_laws json) created_fact updated_fact signed_fact
      ((refl, (refl, (refl, _, refl, refl), refl, (refl, (refl, tt)))), tt)
      ((refl, (refl, (refl, _, refl, refl), refl, (refl, (refl, tt)))), tt) (refl, tt)

unpack_inventory-pack_example :
    (unpack_inventory (layer bson 4) (pack_inventory first_inventory) ≡ ok first_inventory)
    × (unpack_inventory (layer json 4) (pack_inventory first_inventory)
        ≡ unpack_inventory (layer json 4) (pack_inventory (record { doc_infos = [] })))
unfolding layer
unpack_inventory-pack_example =
    unpack_inventory-pack (layer bson 4) (encoder_laws bson) first_inventory
      (record { doc_infos = [] }) (layer json 4) refl refl ((refl, _, refl, refl), tt)
