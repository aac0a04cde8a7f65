-- ===== src/Inventory/Erasure.antt =====
-- The list that `Romove` leaves, up to the order: the infos without the one that has the id.
use mathlib.Core.List.{Permᴰ}
use mathlib.Core.List.Permᴰ
use mitum_data_blocksign.Prelude.{
  Bytes, bytes_eq, bytes_eq_iff, none, List, [], ◌∷◌, ◌≡◌, ◌≢◌, refl, inl, inr, ok, arith, All,
  Distinct, Bool-cases, if◌then◌else◌,
}
use mitum_data_blocksign.DocInfo.{DocInfo}
use mitum_data_blocksign.Inventory.{id_text, remove_in, fill_gap, last_of, init_of}
use mitum_data_blocksign.Inventory.Lookup.{Named, find}

-- The list without the first info with the id.
pub erase_id : Bytes → List DocInfo → List DocInfo
erase_id id [] = []
erase_id id (d ∷ ds) = if bytes_eq id (id_text d) then ds else d ∷ erase_id id ds

fill_gap-perm_cons :
    (d : DocInfo) (ds : List DocInfo) → Permᴰ (last_of d ds ∷ init_of d ds) (d ∷ ds)
unfolding last_of init_of
fill_gap-perm_cons d [] = Permᴰ.refl (d ∷ [])
fill_gap-perm_cons d (e ∷ es) =
    Permᴰ.trans (Permᴰ.swap refl refl) (Permᴰ.cons refl (fill_gap-perm_cons e es))

fill_gap-perm : (ds : List DocInfo) → Permᴰ (fill_gap ds) ds
unfolding fill_gap
fill_gap-perm [] = Permᴰ.nil
fill_gap-perm (d ∷ ds) = fill_gap-perm_cons d ds

pub remove_in-perm :
    (id : Bytes) (ds : List DocInfo)
    → All Named ds
    → (rest : List DocInfo) × (remove_in id ds ≡ ok rest) × Permᴰ (erase_id id ds) rest
unfolding remove_in erase_id
remove_in-perm id [] n = ([], refl, Permᴰ.nil)
remove_in-perm id (d ∷ ds) n = elim (Bool-cases (bytes_eq id (id_text d))) [
  | inl same ↦ (fill_gap ds, rw (n.0, same) refl, rw same (Permᴰ.symm (fill_gap-perm ds)))
  | inr other ↦
      let (rest, e, p) = remove_in-perm id ds n.1 in
      (d ∷ rest, rw (n.0, other, e) refl, rw other (Permᴰ.cons refl p))
]

find_absent : (q : Bytes) (ds : List DocInfo) → All (λ e. id_text e ≢ q) ds → find q ds ≡ none
unfolding find
find_absent q [] a = refl
find_absent q (e ∷ ds) a = ground (arith, bytes_eq_iff (id_text e) q, find_absent q ds a.1)

pub find-erase_id :
    (id q : Bytes) (ds : List DocInfo)
    → Distinct id_text ds
    → find q (erase_id id ds) ≡ (if bytes_eq id q then none else find q ds)
unfolding find erase_id
find-erase_id id q [] h = ground arith
find-erase_id id q (d ∷ ds) h = elim (Bool-cases (bytes_eq id (id_text d))) [
  | inl same ↦
      let e : id ≡ id_text d = (bytes_eq_iff id (id_text d)).0 same in
      rw same (rw e (ground (arith, bytes_eq_iff (id_text d) q, find_absent (id_text d) ds h.0)))
  | inr other ↦ rw other (
      ground (
        arith,
        bytes_eq_iff (id_text d) q,
        bytes_eq_iff id q,
        bytes_eq_iff id (id_text d),
        find-erase_id id q ds h.1,
      ))
]

pub All-erase_id {ℓ} :
    (P : DocInfo → Type ℓ) (id : Bytes) (ds : List DocInfo) → All P ds → All P (erase_id id ds)
unfolding erase_id
All-erase_id P id [] h = tt
All-erase_id P id (d ∷ ds) h = elim (Bool-cases (bytes_eq id (id_text d))) [
  | inl same ↦ rw same h.1
  | inr other ↦ rw other (h.0, All-erase_id P id ds h.1)
]

pub Distinct-erase_id :
    (id : Bytes) (ds : List DocInfo) → Distinct id_text ds → Distinct id_text (erase_id id ds)
unfolding erase_id
Distinct-erase_id id [] h = tt
Distinct-erase_id id (d ∷ ds) h = elim (Bool-cases (bytes_eq id (id_text d))) [
  | inl same ↦ rw same h.1
  | inr other ↦
      rw other (All-erase_id (λ y. id_text y ≢ id_text d) id ds h.0, Distinct-erase_id id ds h.1)
]
