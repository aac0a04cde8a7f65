-- ===== src/Process/Create/Freshness.antt =====
-- The documents of a creation whose ids the sender's inventory does not list yet.
use mitum_data_blocksign.Prelude.{
  Bytes, bytes_eq, bytes_eq_iff, bytes_eq_refl, false, Option, none, some, List, [], ◌∷◌, ◌≡◌, ◌≢◌,
  sym, ◌∙◌, All, arith, Bool-cases, if◌then◌else◌, inl, inr, refl,
}
use mitum_data_blocksign.DocInfo.{DocInfo}
use mitum_data_blocksign.DocData
use mitum_data_blocksign.Inventory.{id_text}
use mitum_data_blocksign.Inventory.Lookup.{find}
use mitum_data_blocksign.Process.Create.{CreateDocumentsItemProcessor}

abbrev pub text_of : {A S : Type 0} → CreateDocumentsItemProcessor A S → Bytes
text_of n = id_text (DocData.info n.item.doc)

-- The items' documents have ids that the list does not have, and no two have the same.
abbrev pub Fresh : {A S : Type 0} → List (CreateDocumentsItemProcessor A S) → List DocInfo → Type 0
Fresh [] ds = Unit
Fresh (n ∷ ns) ds = (find (text_of n) ds ≡ none) × All (λ m. text_of m ≢ text_of n) ns × Fresh ns ds

-- The list `ds'` stands for the map of `ds` with the info `d`.
abbrev pub Gains : DocInfo → List DocInfo → List DocInfo → Type 0
Gains d ds ds' = (q : Bytes) → find q ds' ≡ (if bytes_eq (id_text d) q then some d else find q ds)

pub Fresh-Gains :
    {A S : Type 0} (ns : List (CreateDocumentsItemProcessor A S)) (d : DocInfo)
    (ds ds' : List DocInfo)
    → Gains d ds ds'
    → All (λ m. text_of m ≢ id_text d) ns
    → Fresh ns ds
    → Fresh ns ds'
Fresh-Gains [] d ds ds' g a f = tt
Fresh-Gains (n ∷ ns) d ds ds' g a f =
    let other : bytes_eq (id_text d) (text_of n) ≡ false =
      elim (Bool-cases (bytes_eq (id_text d) (text_of n))) [
        | inl same ↦ absurd (a.0 (sym ((bytes_eq_iff (id_text d) (text_of n)).0 same)))
        | inr e ↦ e
      ] in
    (g (text_of n) ∙ rw other f.0, f.1, Fresh-Gains ns d ds ds' g a.1 f.2)

absent_before :
    (d : DocInfo) (q : Bytes) (o : Option DocInfo)
    → (if bytes_eq (id_text d) q then some d else o) ≡ none
    → (q ≢ id_text d) × (o ≡ none)
absent_before d q o h = elim (Bool-cases (bytes_eq (id_text d) q)) [
  | inl same ↦ cc (rw same at h)
  | inr other ↦ (λ e. ground (arith, bytes_eq_iff (id_text d) q), rw other at h)
]

-- What is fresh after an info is added is fresh before, and apart from it.
pub Fresh-before :
    {A S : Type 0} (ns : List (CreateDocumentsItemProcessor A S)) (d : DocInfo)
    (ds ds' : List DocInfo)
    → Gains d ds ds'
    → Fresh ns ds'
    → All (λ m. text_of m ≢ id_text d) ns × Fresh ns ds
Fresh-before [] d ds ds' g f = (tt, tt)
Fresh-before (n ∷ ns) d ds ds' g f =
    let (apart, absent) =
      absent_before d (text_of n) (find (text_of n) ds) (sym (g (text_of n)) ∙ f.0) in
    let (others, rest) = Fresh-before ns d ds ds' g f.2 in ((apart, others), (absent, f.1, rest))

-- An info under a new id hides none.
pub kept-Gains :
    (d : DocInfo) (ds ds' : List DocInfo)
    → Gains d ds ds'
    → find (id_text d) ds ≡ none
    → (q : Bytes) (old : DocInfo) → find q ds ≡ some old
    → find q ds' ≡ some old
kept-Gains d ds ds' g fresh q old h = elim (Bool-cases (bytes_eq (id_text d) q)) [
  | inl same ↦ let e : id_text d ≡ q = (bytes_eq_iff (id_text d) q).0 same in cc
  | inr other ↦ g q ∙ rw other h
]

pub own-Gains :
    (d : DocInfo) (ds ds' : List DocInfo) → Gains d ds ds' → find (id_text d) ds' ≡ some d
own-Gains d ds ds' g = g (id_text d) ∙ rw (bytes_eq_refl (id_text d)) refl
