-- ===== src/DocData/Checks.antt =====
-- What `IsValid` of document data checks.
use text.Mathlib.TextEquality.{eq_iff}
use mitum_data_blocksign.Prelude.{
  List, [], ◌∷◌, false, some, ◌≡◌, ◌≢◌, ◌↔◌, refl, All, ok, fail_if, fail_if->>-ok, >>-ok,
  map_err-ok, for_each, for_each-ok, arith, Option-cases, inl, inr, map_err, ◌>>◌,
}
use mitum_data_blocksign.Error.{wrapped, doc_type_mismatch}
use mitum_data_blocksign.Mitum.{Validity, Hint, Util, UtilLaws, Addresses}
use mitum_data_blocksign.DocId.{DocId}
use mitum_data_blocksign.DocInfo.{DocInfo}
use mitum_data_blocksign.DocInfo
use mitum_data_blocksign.DocParts.{DocSign, sign_is_valid, statistics_is_valid, candidate_is_valid}
use mitum_data_blocksign.DocData.{
  DocumentData, bs_doc, bc_user, bc_land, bc_voting, bc_history, hint_of, info, owner, is_valid,
  bs_doc_is_valid, bc_user_is_valid, bc_land_is_valid, bc_voting_is_valid, bc_history_is_valid,
  type_mismatch,
}

type_mismatch_iff : (i : DocInfo) (h : Hint) → (type_mismatch i h ≡ false) ↔ (i.doc_type ≡ h.ty)
unfolding type_mismatch
type_mismatch_iff i h =
    (λ m. ground (arith, eq_iff i.doc_type h.ty), λ e. ground (arith, eq_iff i.doc_type h.ty))

module _ ⦃u : Util⦄ ⦃laws : UtilLaws⦄ where
  -- A type test and a check of the fields.
  checks_iff :
      (i : DocInfo) (h : Hint) (vs : List Validity)
      → ((do fail_if (type_mismatch i h) doc_type_mismatch; map_err wrapped (u.check vs)) ≡ ok tt)
        ↔ ((i.doc_type ≡ h.ty) × All (λ v. v ≡ ok tt) vs)
  checks_iff i h vs = (
    λ m.
        let (t, c) = (fail_if->>-ok (type_mismatch i h) doc_type_mismatch _).0 m in
        ((type_mismatch_iff i h).0 t, (laws.check_iff vs).0 ((map_err-ok wrapped _ tt).0 c)),
    λ (t, c).
        (fail_if->>-ok (type_mismatch i h) doc_type_mismatch _).1
          ((type_mismatch_iff i h).1 t, (map_err-ok wrapped _ tt).1 ((laws.check_iff vs).1 c)),
  )

  -- The same before a loop over the rest.
  steps_iff :
      (i : DocInfo) (h : Hint) (vs : List Validity) (rest : Validity)
      → ((do fail_if (type_mismatch i h) doc_type_mismatch; map_err wrapped (u.check vs); rest)
          ≡ ok tt)
        ↔ ((i.doc_type ≡ h.ty) × All (λ v. v ≡ ok tt) vs × (rest ≡ ok tt))
  steps_iff i h vs rest = (
    λ m.
        let (t, m') = (fail_if->>-ok (type_mismatch i h) doc_type_mismatch _).0 m in
        let (c, r) = (>>-ok (map_err wrapped (u.check vs)) rest tt).0 m' in
        ((type_mismatch_iff i h).0 t, (laws.check_iff vs).0 ((map_err-ok wrapped _ tt).0 c), r),
    λ (t, c, r). (fail_if->>-ok (type_mismatch i h) doc_type_mismatch _).1 (
      (type_mismatch_iff i h).1 t,
      (>>-ok (map_err wrapped (u.check vs)) rest tt).1
          ((map_err-ok wrapped _ tt).1 ((laws.check_iff vs).1 c), r),
    ),
  )

module _ {A : Type 0} ⦃a : Addresses A⦄ ⦃u : Util⦄ where
  -- What each kind requires beyond the fields that all have.
  abbrev pub PartsValid : DocumentData A → Type 0
  PartsValid (bs_doc d) = Unit
  PartsValid (bc_user d) = Unit
  PartsValid (bc_land d) = Unit
  PartsValid (bc_voting d) = All (λ c. candidate_is_valid c ≡ ok tt) d.candidates
  PartsValid (bc_history d) = a.address_is_valid d.account ≡ ok tt

  pub record Valid (d : DocumentData A) : Type 0 where
    pub typed : (info d).doc_type ≡ (hint_of d).ty
    pub hinted : u.hinter_is_valid (hint_of d) ≡ ok tt
    pub informed : DocInfo.is_valid (info d) ≡ ok tt
    pub owned : a.address_is_valid (owner d) ≡ ok tt
    pub parts : PartsValid d

  signs-IsValid : (xs : List (DocSign A)) → for_each sign_is_valid xs ≡ ok tt
  unfolding sign_is_valid for_each
  signs-IsValid [] = refl
  signs-IsValid (x ∷ xs) = signs-IsValid xs

  module _ ⦃laws : UtilLaws⦄ where
    is_valid_sound : (d : DocumentData A) → is_valid d ≡ ok tt → Valid d
    unfolding is_valid hint_of info owner bs_doc_is_valid bc_user_is_valid bc_land_is_valid
        bc_voting_is_valid bc_history_is_valid
    is_valid_sound (bs_doc d) h =
        let (t, (v0, (v1, (v2, _))), _) = (steps_iff d.info d.hint _ _).0 h in
        record { typed = t; hinted = v0; informed = v1; owned = v2; parts = tt }
    is_valid_sound (bc_user d) h =
        let (t, (v0, (v1, (v2, _)))) = (checks_iff d.info d.hint _).0 h in
        record { typed = t; hinted = v0; informed = v1; owned = v2; parts = tt }
    is_valid_sound (bc_land d) h =
        let (t, (v0, (v1, (v2, _)))) = (checks_iff d.info d.hint _).0 h in
        record { typed = t; hinted = v0; informed = v1; owned = v2; parts = tt }
    is_valid_sound (bc_voting d) h =
        let (t, (v0, (v1, (v2, _))), r) = (steps_iff d.info d.hint _ _).0 h in
        record {
          typed = t;
          hinted = v0;
          informed = v1;
          owned = v2;
          parts = (for_each-ok candidate_is_valid d.candidates).0 r;
        }
    is_valid_sound (bc_history d) h =
        let (t, (v0, (v1, (v2, (v3, _))))) = (checks_iff d.info d.hint _).0 h in
        record { typed = t; hinted = v0; informed = v1; owned = v2; parts = v3 }

    is_valid_complete : (d : DocumentData A) → Valid d → is_valid d ≡ ok tt
    unfolding is_valid hint_of info owner bs_doc_is_valid bc_user_is_valid bc_land_is_valid
        bc_voting_is_valid bc_history_is_valid sign_is_valid statistics_is_valid
    is_valid_complete (bs_doc d) v =
        (steps_iff d.info d.hint _ _).1
          (v.typed, (v.hinted, (v.informed, (v.owned, (refl, tt)))), signs-IsValid d.signers)
    is_valid_complete (bc_user d) v =
        (checks_iff d.info d.hint _).1 (v.typed, (v.hinted, (v.informed, (v.owned, (refl, tt)))))
    is_valid_complete (bc_land d) v =
        (checks_iff d.info d.hint _).1 (v.typed, (v.hinted, (v.informed, (v.owned, tt))))
    is_valid_complete (bc_voting d) v = (steps_iff d.info d.hint _ _).1 (
      v.typed,
      (v.hinted, (v.informed, (v.owned, tt))),
      (for_each-ok candidate_is_valid d.candidates).1 v.parts,
    )
    is_valid_complete (bc_history d) v =
        (checks_iff d.info d.hint _).1 (v.typed, (v.hinted, (v.informed, (v.owned, (v.parts, tt)))))

    -- `IsValid` of each kind of data passes exactly when the type that the info names is the type of
    -- the data, and the hint, the info, the owner and the parts of that kind are valid.
    pub document_is_valid_iff : (d : DocumentData A) → (is_valid d ≡ ok tt) ↔ Valid d
    document_is_valid_iff d = (is_valid_sound d, is_valid_complete d)

-- A valid info has an id and a type.
pub DocInfo-valid :
    ⦃u : Util⦄ (i : DocInfo)
    → DocInfo.is_valid i ≡ ok tt
    → (x : DocId) × (i.id ≡ some x) × (i.doc_type ≢ "")
unfolding DocInfo.is_valid DocInfo.id_string
DocInfo-valid i h = elim (Option-cases i.id) [
  | inl nil ↦ cc (rw nil at h)
  | inr (x, e) ↦ (x, e, λ q. ground (arith, eq_iff i.doc_type ""))
]
