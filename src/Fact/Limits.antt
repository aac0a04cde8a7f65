-- ===== src/Fact/Limits.antt =====
-- What `IsValid` of a fact promises about its items.
use mitum_data_blocksign.Prelude.{
  ℕ, ◌≤◌, Bytes, bytes_eq, bytes_eq_iff, false, List, [], ◌∷◌, ◌≡◌, ◌≢◌, refl, sym, All, any,
  Distinct, length, ok, ◌>>◌, >>=-eq-ok, >>-ok, fail_if->>-ok, map_each, arith,
}
use mitum_data_blocksign.Error.{duplicated_document}
use mitum_data_blocksign.Mitum.{Outcome, Validity, Util, Addresses}
use mitum_data_blocksign.DocData
use mitum_data_blocksign.Fact.{
  Fact, CreateDocumentsItem, UpdateDocumentsItem, SignDocumentItem, create_item_is_valid,
  update_item_is_valid, sign_item_is_valid, create_fact_is_valid, update_fact_is_valid,
  sign_fact_is_valid, check_items, check_size,
}

-- The items are valid, name documents with distinct ids, and are as many as the limits allow.
pub record Limited {I : Type 0} (max : ℕ) (item_is_valid : I → Validity)
    (document_id : I → Outcome Bytes) (items : List I) : Type 0 where
  pub some_items : 1 ≤ length items
  pub not_too_many : length items ≤ max
  pub valid : All (λ it. item_is_valid it ≡ ok tt) items
  pub ids : List Bytes
  pub named : map_each document_id items ≡ ok ids
  pub distinct : Distinct (λ id. id) ids

any-none : (k : Bytes) (seen : List Bytes) → any (bytes_eq k) seen ≡ false → All (λ s. s ≢ k) seen
any-none k [] h = tt
any-none k (s ∷ seen) h = (λ e. ground (arith, bytes_eq_iff k s), any-none k seen (ground arith))

-- Ids that `k` and the ids before it are not among.
All-unseen :
    (k : Bytes) (seen ids : List Bytes)
    → All (λ id. All (λ s. s ≢ id) (k ∷ seen)) ids
    → All (λ id. id ≢ k) ids × All (λ id. All (λ s. s ≢ id) seen) ids
All-unseen k seen [] h = (tt, tt)
All-unseen k seen (id ∷ ids) h =
    let (apart, rest) = All-unseen k seen ids h.1 in ((λ e. h.0.0 (sym e), apart), (h.0.1, rest))

module _ {I : Type 0} (item_is_valid : I → Validity) (document_id : I → Outcome Bytes) where
  -- What the loop has checked when it passes.
  record Checked (items : List I) (seen : List Bytes) : Type 0 where
    valid : All (λ it. item_is_valid it ≡ ok tt) items
    ids : List Bytes
    named : map_each document_id items ≡ ok ids
    distinct : Distinct (λ id. id) ids
    unseen : All (λ id. All (λ s. s ≢ id) seen) ids

  check_items-Checked :
      (items : List I) (seen : List Bytes)
      → check_items item_is_valid document_id items seen ≡ ok tt
      → Checked items seen
  unfolding check_items map_each
  check_items-Checked [] seen h = record {
    valid = tt;
    ids = [];
    named = refl;
    distinct = tt;
    unseen = tt;
  }
  check_items-Checked (it ∷ items) seen h =
      let (v, h1) = (>>-ok (item_is_valid it) _ tt).0 h in
      let (k, id, h2) = >>=-eq-ok (document_id it) _ h1 in
      let (new, h3) = (fail_if->>-ok (any (bytes_eq k) seen) (duplicated_document k) _).0 h2 in
      let rest = check_items-Checked items (k ∷ seen) h3 in
      record {
        valid = (v, rest.valid);
        ids = k ∷ rest.ids;
        named = rw (id, rest.named) refl;
        distinct = ((All-unseen k seen rest.ids rest.unseen).0, rest.distinct);
        unseen = (any-none k seen new, (All-unseen k seen rest.ids rest.unseen).1);
      }

module _ {A I : Type 0} ⦃a : Addresses A⦄ ⦃u : Util⦄ where
  check_size-bounds :
      (max : ℕ) (fact : Fact A I)
      → check_size max fact ≡ ok tt
      → (1 ≤ length fact.items) × (length fact.items ≤ max)
  unfolding check_size
  check_size-bounds max fact h = ground arith

  -- The part that the three `IsValid` methods share.
  shared-Limited :
      (max : ℕ) (item_is_valid : I → Validity) (document_id : I → Outcome Bytes) (fact : Fact A I)
      (m1 m2 m3 m4 : Validity)
      → (do
        m1
        m2
        check_size max fact
        m3
        check_items item_is_valid document_id fact.items []
        m4)
        ≡ ok tt
      → Limited max item_is_valid document_id fact.items
  shared-Limited max item_is_valid document_id fact m1 m2 m3 m4 h =
      let (_, h1) = (>>-ok m1 _ tt).0 h in
      let (_, h2) = (>>-ok m2 _ tt).0 h1 in
      let (size, h3) = (>>-ok (check_size max fact) _ tt).0 h2 in
      let (_, h4) = (>>-ok m3 _ tt).0 h3 in
      let (items, _) = (>>-ok (check_items item_is_valid document_id fact.items []) m4 tt).0 h4 in
      let (low, high) = check_size-bounds max fact size in
      let c = check_items-Checked item_is_valid document_id fact.items [] items in
      record {
        some_items = low;
        not_too_many = high;
        valid = c.valid;
        ids = c.ids;
        named = c.named;
        distinct = c.distinct;
      }

module _ {A : Type 0} ⦃a : Addresses A⦄ ⦃u : Util⦄ where
  -- A valid fact that creates documents has one to ten valid items, and no two of them name the same
  -- document.
  create_fact_is_valid-Limited :
      (op_valid : Fact A (CreateDocumentsItem A) → Validity) (fact : Fact A (CreateDocumentsItem A))
      → create_fact_is_valid op_valid fact ≡ ok tt
      → Limited 10
          (λ it. u.check (create_item_is_valid it ∷ []))
          (λ it. DocData.document_id it.doc)
          fact.items
  unfolding create_fact_is_valid
  create_fact_is_valid-Limited op_valid fact h = shared-Limited 10 _ _ fact _ _ _ _ h

  -- A valid fact that updates documents has one to ten valid items, and no two of them name the same
  -- document.
  update_fact_is_valid-Limited :
      (op_valid : Fact A (UpdateDocumentsItem A) → Validity) (fact : Fact A (UpdateDocumentsItem A))
      → update_fact_is_valid op_valid fact ≡ ok tt
      → Limited 10
          (λ it. u.check (update_item_is_valid it ∷ []))
          (λ it. DocData.document_id it.doc)
          fact.items
  unfolding update_fact_is_valid
  update_fact_is_valid-Limited op_valid fact h = shared-Limited 10 _ _ fact _ _ _ _ h

  -- A valid fact that signs documents has one to ten valid items, and no two of them name the same
  -- document.
  sign_fact_is_valid-Limited :
      (op_valid : Fact A (SignDocumentItem A) → Validity) (fact : Fact A (SignDocumentItem A))
      → sign_fact_is_valid op_valid fact ≡ ok tt
      → Limited 10 sign_item_is_valid (λ it. ok it.id) fact.items
  unfolding sign_fact_is_valid
  sign_fact_is_valid-Limited op_valid fact h = shared-Limited 10 _ _ fact _ _ _ _ h

  -- Valid facts that create, update and sign documents have one to ten valid items each, and no two
  -- items of one fact name the same document.
  pub facts-Limited :
      (created_valid : Fact A (CreateDocumentsItem A) → Validity)
      (created : Fact A (CreateDocumentsItem A))
      (updated_valid : Fact A (UpdateDocumentsItem A) → Validity)
      (updated : Fact A (UpdateDocumentsItem A))
      (signed_valid : Fact A (SignDocumentItem A) → Validity) (signed : Fact A (SignDocumentItem A))
      → create_fact_is_valid created_valid created ≡ ok tt
      → update_fact_is_valid updated_valid updated ≡ ok tt
      → sign_fact_is_valid signed_valid signed ≡ ok tt
      → Limited 10
          (λ it. u.check (create_item_is_valid it ∷ []))
          (λ it. DocData.document_id it.doc)
          created.items
        × Limited 10
            (λ it. u.check (update_item_is_valid it ∷ []))
            (λ it. DocData.document_id it.doc)
            updated.items
        × Limited 10 sign_item_is_valid (λ it. ok it.id) signed.items
  facts-Limited created_valid created updated_valid updated signed_valid signed c d s = (
    create_fact_is_valid-Limited created_valid created c,
    update_fact_is_valid-Limited updated_valid updated d,
    sign_fact_is_valid-Limited signed_valid signed s,
  )
