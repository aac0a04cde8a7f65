-- ===== src/Process/Create/Verdict.antt =====
-- What `PreProcess` of an item of a creation makes of each valid item.
use mitum_data_blocksign.Prelude.{
  Bytes, Bool, true, false, none, some, List, [], ◌∷◌, ◌≡◌, ◌≢◌, ◌↔◌, ◌⊎◌, inl, inr, refl, ◌∙◌, All,
  ok, err, panic, ◌>>=◌, map_err-ok, for_each, Result-cases,
}
use Prim.Native.String.{String}
use mitum_data_blocksign.Error.{
  Error, reason, wrapped, account_not_found, document_already_registered,
}
use mitum_data_blocksign.Mitum.{new_hint, Util, UtilLaws, Addresses}
use mitum_data_blocksign.DocId.{DocId, new_doc_id}
use mitum_data_blocksign.DocId.Parse.{Splits, parse_doc_id_iff}
use mitum_data_blocksign.DocId.Kinds.{new_doc_id-cases}
use mitum_data_blocksign.DocInfo.{id_string, doc_info_type}
use mitum_data_blocksign.DocInfo
use mitum_data_blocksign.DocData
use mitum_data_blocksign.DocData.Checks.{DocInfo-valid, document_is_valid_iff}
use mitum_data_blocksign.Chain.{Chain, GetState}
use mitum_data_blocksign.State.{state_key_document_data}
use mitum_data_blocksign.Fact.{CreateDocumentsItem, create_item_is_valid}
use mitum_data_blocksign.Process.Writes.{check_account, check_account-found, found-accounts}
use mitum_data_blocksign.Process.Create.{
  CreateDocumentsItemProcessor, prepare_doc_info, item_pre_process,
}
use mitum_data_blocksign.Process.Create.Accepts.{OnChain}

-- The id is a body and a short type that stands for a type.
abbrev pub HasType : Bytes → Type 0
HasType s = (b : Bytes) × (ty : String) × Splits s b ty

HasType-cases :
    (s : Bytes)
    → ((d : DocId) × HasType s × (new_doc_id s ≡ some d)) ⊎ (¬ HasType s × (new_doc_id s ≡ none))
HasType-cases s = elim (new_doc_id-cases s) [
  | inl (d, b, e) ↦ inl (d, (b.body, b.ty, (parse_doc_id_iff s b.body b.ty).0 b.parses), e)
  | inr (x, e, f) ↦ inr (λ (b, ty, h). cc ((parse_doc_id_iff s b ty).1 h), f)
]

module _ {A S P M : Type 0} ⦃a : Addresses A⦄ ⦃u : Util⦄ (c : Chain A S P M) (gs : GetState S) where
  -- The document has the id, which is not registered, and its accounts are on the chain.
  pub record Checked (item : CreateDocumentsItem A) (documentid : Bytes) (st : S) : Type 0 where
    pub named : DocData.document_id item.doc ≡ ok documentid
    pub unregistered : gs (state_key_document_data documentid) ≡ ok (st, false)
    pub accounts : All (λ x. OnChain c gs (c.state_key_account x)) (DocData.accounts item.doc)

  Checked-steps :
      (item : CreateDocumentsItem A) (documentid : Bytes) (st : S)
      → create_item_is_valid item ≡ ok tt
      → Checked item documentid st
      → item_pre_process c gs item ≡ (
          prepare_doc_info (new_doc_id documentid) >>= λ i.
          ok (record { item = item; nds = st; doc_info = i }))
  unfolding item_pre_process
  Checked-steps item documentid st v h =
      rw (v, h.named, h.unregistered, found-accounts c gs (DocData.accounts item.doc) h.accounts)
        refl

  Checked-passes :
      (item : CreateDocumentsItem A) (documentid : Bytes) (st : S)
      → create_item_is_valid item ≡ ok tt
      → Checked item documentid st
      → HasType documentid
      → (opp : CreateDocumentsItemProcessor A S) × (item_pre_process c gs item ≡ ok opp)
  unfolding prepare_doc_info
  Checked-passes item documentid st v h typed = elim (HasType-cases documentid) [
    | inl (d, _, e) ↦ (
      record {
        item = item;
        nds = st;
        doc_info = record { hint = new_hint doc_info_type; id = some d; doc_type = d.hint.ty };
      },
      Checked-steps item documentid st v h ∙ rw e refl,
    )
    | inr (untyped, _) ↦ absurd (untyped typed)
  ]

  Checked-panics :
      (item : CreateDocumentsItem A) (documentid : Bytes) (st : S)
      → create_item_is_valid item ≡ ok tt
      → Checked item documentid st
      → ¬ HasType documentid
      → item_pre_process c gs item ≡ panic
  unfolding prepare_doc_info
  Checked-panics item documentid st v h untyped = elim (HasType-cases documentid) [
    | inl (d, typed, _) ↦ absurd (untyped typed)
    | inr (_, e) ↦ Checked-steps item documentid st v h ∙ rw e refl
  ]

  module _ (quiet : (k : Bytes) → gs k ≢ panic) where
    account-cases :
        (x : A)
        → OnChain c gs (c.state_key_account x) ⊎ ((e : Error) × (check_account c gs x ≡ err e))
    unfolding check_account
    account-cases x = elim (Result-cases (gs (c.state_key_account x))) [
      | inl ((st, found), e) ↦ found_state st found e
      | inr (inl (x, e)) ↦ inr (x, rw e refl)
      | inr (inr e) ↦ absurd (quiet _ e)
    ]
      where
        found_state :
            (st : S) (found : Bool)
            → gs (c.state_key_account x) ≡ ok (st, found)
            → OnChain c gs (c.state_key_account x) ⊎ ((e : Error) × (check_account c gs x ≡ err e))
        found_state st true e = inl (st, e)
        found_state st false e = inr (reason account_not_found, rw e refl)

    accounts-cases :
        (xs : List A)
        → All (λ x. OnChain c gs (c.state_key_account x)) xs
          ⊎ ((e : Error) × (for_each (check_account c gs) xs ≡ err e))
    unfolding for_each
    accounts-cases [] = inl tt
    accounts-cases (x ∷ xs) = elim (account-cases x) [
      | inr (e, h) ↦ inr (e, rw h refl)
      | inl first ↦ elim (accounts-cases xs) [
        | inl rest ↦ inl (first, rest)
        | inr (e, h) ↦ inr (e, rw ((check_account-found c gs x).1 first) h)
      ]
    ]

    unregistered-cases :
        (item : CreateDocumentsItem A) (documentid : Bytes) (st : S) (found : Bool)
        → create_item_is_valid item ≡ ok tt
        → DocData.document_id item.doc ≡ ok documentid
        → gs (state_key_document_data documentid) ≡ ok (st, found)
        → Checked item documentid st ⊎ ((e : Error) × (item_pre_process c gs item ≡ err e))
    unfolding item_pre_process
    unregistered-cases item documentid st true v n e =
        inr (reason (document_already_registered documentid), rw (v, n, e) refl)
    unregistered-cases item documentid st false v n e =
        elim (accounts-cases (DocData.accounts item.doc)) [
          | inl h ↦ inl (record { named = n; unregistered = e; accounts = h })
          | inr (x, h) ↦ inr (x, rw (v, n, e, h) refl)
        ]

    module _ ⦃laws : UtilLaws⦄ where
      valid_named :
          (item : CreateDocumentsItem A)
          → create_item_is_valid item ≡ ok tt
          → (documentid : Bytes) × (DocData.document_id item.doc ≡ ok documentid)
      unfolding create_item_is_valid DocData.document_id DocInfo.document_id id_string
      valid_named item v =
          let (_, (valid, _)) = (laws.check_iff _).0 ((map_err-ok wrapped _ tt).0 v) in
          let (x, e, _) =
            DocInfo-valid (DocData.info item.doc)
              ((document_is_valid_iff item.doc).0 valid).informed in
          (x.s, rw e refl)

      Checked-cases :
          (item : CreateDocumentsItem A)
          → create_item_is_valid item ≡ ok tt
          → ((documentid : Bytes) × (st : S) × Checked item documentid st)
            ⊎ ((e : Error) × (item_pre_process c gs item ≡ err e))
      unfolding item_pre_process
      Checked-cases item v =
          let (documentid, n) = valid_named item v in
          elim (Result-cases (gs (state_key_document_data documentid))) [
            | inl ((st, found), e) ↦ elim (unregistered-cases item documentid st found v n e) [
              | inl h ↦ inl (documentid, st, h)
              | inr refused ↦ inr refused
            ]
            | inr (inl (x, e)) ↦ inr (x, rw (v, n, e) refl)
            | inr (inr e) ↦ absurd (quiet _ e)
          ]

      Verdict-cases :
          (item : CreateDocumentsItem A)
          → create_item_is_valid item ≡ ok tt
          → ((documentid : Bytes) × (st : S) × Checked item documentid st × HasType documentid)
            ⊎ ((documentid : Bytes) × (st : S) × Checked item documentid st × ¬ HasType documentid)
            ⊎ ((e : Error) × (item_pre_process c gs item ≡ err e))
      Verdict-cases item v = elim (Checked-cases item v) [
        | inl (documentid, st, h) ↦ elim (HasType-cases documentid) [
          | inl (_, typed, _) ↦ inl (documentid, st, h, typed)
          | inr (untyped, _) ↦ inr (inl (documentid, st, h, untyped))
        ]
        | inr refused ↦ inr (inr refused)
      ]

      -- Of a valid item, where reading a state does not panic: `PreProcess` passes exactly where the
      -- document's id is not registered, its accounts are on the chain and the id is a body with a
      -- known short type. It panics exactly where the id is not registered, the accounts are on the
      -- chain and the id is no body with a known short type.
      pub item_pre_process_verdict :
          (item : CreateDocumentsItem A)
          → create_item_is_valid item ≡ ok tt
          → (((opp : CreateDocumentsItemProcessor A S) × (item_pre_process c gs item ≡ ok opp))
              ↔ ((documentid : Bytes) × (st : S) × Checked item documentid st × HasType documentid))
            × ((item_pre_process c gs item ≡ panic) ↔ (
                (documentid : Bytes) × (st : S) × Checked item documentid st
                × ¬ HasType documentid))
      item_pre_process_verdict item v = (
        (
          λ (opp, passes). elim (Verdict-cases item v) [
            | inl typed ↦ typed
            | inr (inl (id, st, h, untyped)) ↦ cc (Checked-panics item id st v h untyped)
            | inr (inr (e, refused)) ↦ cc
          ],
          λ (id, st, h, typed). Checked-passes item id st v h typed,
        ),
        (
          λ panics. elim (Verdict-cases item v) [
            | inl (id, st, h, typed) ↦ let (opp, passes) = Checked-passes item id st v h typed in cc
            | inr (inl untyped) ↦ untyped
            | inr (inr (e, refused)) ↦ cc
          ],
          λ (id, st, h, untyped). Checked-panics item id st v h untyped,
        ),
      )
