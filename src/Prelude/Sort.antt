-- ===== src/Prelude/Sort.antt =====
-- `sort.Slice`, as a stable insertion sort by a Boolean `less`: the order of elements that `less`
-- does not tell apart is left open by Go, and the theorems that use this need none.
use mathlib.Core.Path.{◌≡◌, refl, sym, ap, subst, ◌∙◌}
use mathlib.Core.Logic.{◌≢◌, inl, inr}
use mathlib.Core.Bool.{Bool, true, false}
use mathlib.Core.List.{List, [], ◌∷◌, map, Permᴰ}
use mathlib.Core.List.Permᴰ
use native.Mathlib.Omega.{arith}
use mitum_data_blocksign.Prelude.Tests.{if◌then◌else◌, Bool-cases}
use mitum_data_blocksign.Prelude.Lists.{All}
use mitum_data_blocksign.Prelude.ByteLists.{
  Bytes, bytes_lt, bytes_lt_asymm, bytes_lt_trans, bytes_lt_total,
}

module _ {ℓ} {A : Type ℓ} (less : A → A → Bool) where
  unfoldable pub insert_by : A → List A → List A
  insert_by x [] = x ∷ []
  insert_by x (y ∷ ys) = if less y x then y ∷ insert_by x ys else x ∷ y ∷ ys

  unfoldable pub sort_slice : List A → List A
  unfolding insert_by
  sort_slice [] = []
  sort_slice (x ∷ xs) = insert_by x (sort_slice xs)

  insert_by-perm : (x : A) (xs : List A) → Permᴰ (insert_by x xs) (x ∷ xs)
  unfolding insert_by
  insert_by-perm x [] = Permᴰ.refl (x ∷ [])
  insert_by-perm x (y ∷ ys) = elim (Bool-cases (less y x)) [
    | inl later ↦
        rw later (Permᴰ.trans (Permᴰ.cons refl (insert_by-perm x ys)) (Permᴰ.swap refl refl))
    | inr here ↦ rw here (Permᴰ.refl (x ∷ y ∷ ys))
  ]

  pub sort_slice-perm : (xs : List A) → Permᴰ (sort_slice xs) xs
  unfolding sort_slice
  sort_slice-perm [] = Permᴰ.nil
  sort_slice-perm (x ∷ xs) =
      Permᴰ.trans (insert_by-perm x (sort_slice xs)) (Permᴰ.cons refl (sort_slice-perm xs))

-- No two elements have the same key.
abbrev pub Distinct {ℓ} : {A : Type ℓ} → (A → Bytes) → List A → Type 0
Distinct k [] = Unit
Distinct k (x ∷ xs) = All (λ y. k y ≢ k x) xs × Distinct k xs

pub All-perm {ℓ κ} :
    {A : Type ℓ} (P : A → Type κ) {xs ys : List A} → Permᴰ xs ys → All P xs → All P ys
All-perm P Permᴰ.nil h = tt
All-perm P (Permᴰ.cons e p) h = (subst P e h.0, All-perm P p h.1)
All-perm P (Permᴰ.swap e f) h = (subst P f h.1.0, (subst P e h.0, h.1.1))
All-perm P (Permᴰ.trans p q) h = All-perm P q (All-perm P p h)

pub Distinct-perm {ℓ} :
    {A : Type ℓ} (k : A → Bytes) {xs ys : List A} → Permᴰ xs ys → Distinct k xs → Distinct k ys
Distinct-perm k Permᴰ.nil h = tt
Distinct-perm k {xs = a ∷ xs} {ys = b ∷ ys} (Permᴰ.cons e p) h = (
  subst (λ c. All (λ y. k y ≢ k c) ys) e (All-perm (λ y. k y ≢ k a) p h.0),
  Distinct-perm k p h.1,
)
Distinct-perm k (Permᴰ.swap {l = l} e f) h = (
  (λ q. h.0.0 (ap k f ∙ sym q ∙ sym (ap k e)), subst (λ c. All (λ y. k y ≢ k c) l) f h.1.0),
  (subst (λ c. All (λ y. k y ≢ k c) l) e h.0.1, h.1.1),
)
Distinct-perm k (Permᴰ.trans p q) h = Distinct-perm k q (Distinct-perm k p h)

-- The order of a key under `bytes.Compare`.
abbrev pub by_key {ℓ} : {A : Type ℓ} → (A → Bytes) → A → A → Bool
by_key k x y = bytes_lt (k x) (k y)

module _ {ℓ} {A : Type ℓ} (k : A → Bytes) where
  insert_by_comm_lt :
      (x y : A) (l : List A)
      → by_key k x y ≡ true
      → insert_by (by_key k) x (insert_by (by_key k) y l)
        ≡ insert_by (by_key k) y (insert_by (by_key k) x l)
  unfolding insert_by
  insert_by_comm_lt x y [] h = ground (arith, bytes_lt_asymm (k x) (k y))
  insert_by_comm_lt x y (z ∷ l) h = ground (
    arith,
    bytes_lt_asymm (k x) (k y) h,
    bytes_lt_trans (k z) (k x) (k y),
    insert_by_comm_lt x y l h,
  )

  insert_by_comm :
      (x y : A) (l : List A)
      → k x ≢ k y
      → insert_by (by_key k) x (insert_by (by_key k) y l)
        ≡ insert_by (by_key k) y (insert_by (by_key k) x l)
  insert_by_comm x y l h = elim (Bool-cases (by_key k x y)) [
    | inl lt ↦ insert_by_comm_lt x y l lt
    | inr ge ↦ elim (Bool-cases (by_key k y x)) [
      | inl gt ↦ sym (insert_by_comm_lt y x l gt)
      | inr le ↦ absurd (h (bytes_lt_total (k x) (k y) ge le))
    ]
  ]

  -- Where the keys are distinct, the sorted list does not depend on the order that the list had.
  pub sort_slice_perm_invariant :
      {xs ys : List A}
      → Permᴰ xs ys
      → Distinct k xs
      → sort_slice (by_key k) xs ≡ sort_slice (by_key k) ys
  unfolding sort_slice
  sort_slice_perm_invariant Permᴰ.nil d = refl
  sort_slice_perm_invariant (Permᴰ.cons {a = a} {b = b} e p) d =
      rw (e, sort_slice_perm_invariant p d.1)
  sort_slice_perm_invariant (Permᴰ.swap {a = a} {b = b} {l = l} e f) d =
      insert_by_comm a b (sort_slice (by_key k) l) (λ q. d.0.0 (sym q)) ∙ cc
  sort_slice_perm_invariant (Permᴰ.trans p q) d =
      sort_slice_perm_invariant p d ∙ sort_slice_perm_invariant q (Distinct-perm k p d)

-- No element comes before an earlier one.
abbrev pub IsSorted {ℓ} : {A : Type ℓ} → (A → A → Bool) → List A → Type 0
IsSorted less [] = Unit
IsSorted less (x ∷ xs) = All (λ y. less y x ≡ false) xs × IsSorted less xs

ge_trans : (a b c : Bytes) → bytes_lt b a ≡ false → bytes_lt c b ≡ false → bytes_lt c a ≡ false
ge_trans a b c h k = elim (Bool-cases (bytes_lt c a)) [
  | inr ge ↦ ge
  | inl lt ↦ elim (Bool-cases (bytes_lt b c)) [
    | inl up ↦ absurd (cc (bytes_lt_trans b c a up lt))
    | inr level ↦ cc (bytes_lt_total b c level k)
  ]
]

module _ {ℓ} {A : Type ℓ} (k : A → Bytes) where
  All-ge :
      (x y : A) (ys : List A)
      → by_key k y x ≡ false
      → All (λ z. by_key k z y ≡ false) ys
      → All (λ z. by_key k z x ≡ false) ys
  All-ge x y [] h a = tt
  All-ge x y (z ∷ zs) h a = (ge_trans (k x) (k y) (k z) h a.0, All-ge x y zs h a.1)

  insert_by-IsSorted :
      (x : A) (xs : List A)
      → IsSorted (by_key k) xs
      → IsSorted (by_key k) (insert_by (by_key k) x xs)
  unfolding insert_by
  insert_by-IsSorted x [] h = (tt, tt)
  insert_by-IsSorted x (y ∷ ys) h = elim (Bool-cases (by_key k y x)) [
    | inl later ↦ rw later (
      All-perm (λ z. by_key k z y ≡ false) (Permᴰ.symm (insert_by-perm (by_key k) x ys))
          (bytes_lt_asymm (k y) (k x) later, h.0),
      insert_by-IsSorted x ys h.1,
    )
    | inr here ↦ rw here ((here, All-ge x y ys here h.0), h)
  ]

  pub sort_slice-IsSorted : (xs : List A) → IsSorted (by_key k) (sort_slice (by_key k) xs)
  unfolding sort_slice
  sort_slice-IsSorted [] = tt
  sort_slice-IsSorted (x ∷ xs) =
      insert_by-IsSorted x (sort_slice (by_key k) xs) (sort_slice-IsSorted xs)

insert_bytes_comm :
    (x y : Bytes) (l : List Bytes)
    → insert_by bytes_lt x (insert_by bytes_lt y l) ≡ insert_by bytes_lt y (insert_by bytes_lt x l)
insert_bytes_comm x y l = elim (Bool-cases (bytes_lt x y)) [
  | inl lt ↦ insert_by_comm_lt (λ b. b) x y l lt
  | inr ge ↦ elim (Bool-cases (bytes_lt y x)) [
    | inl gt ↦ sym (insert_by_comm_lt (λ b. b) y x l gt)
    | inr le ↦ rw (bytes_lt_total x y ge le)
  ]
]

sort_bytes_perm_invariant :
    {xs ys : List Bytes} → Permᴰ xs ys → sort_slice bytes_lt xs ≡ sort_slice bytes_lt ys
unfolding sort_slice
sort_bytes_perm_invariant Permᴰ.nil = refl
sort_bytes_perm_invariant (Permᴰ.cons e p) = rw (e, sort_bytes_perm_invariant p)
sort_bytes_perm_invariant (Permᴰ.swap {a = a} {b = b} {l = l} e f) =
    insert_bytes_comm a b (sort_slice bytes_lt l) ∙ cc
sort_bytes_perm_invariant (Permᴰ.trans p q) =
    sort_bytes_perm_invariant p ∙ sort_bytes_perm_invariant q

module _ {ℓ} {A : Type ℓ} (k : A → Bytes) where
  map-insert_by :
      (x : A) (l : List A) → map k (insert_by (by_key k) x l) ≡ insert_by bytes_lt (k x) (map k l)
  unfolding insert_by
  map-insert_by x [] = refl
  map-insert_by x (y ∷ l) = ground (arith, map-insert_by x l)

  map-sort_slice : (xs : List A) → map k (sort_slice (by_key k) xs) ≡ sort_slice bytes_lt (map k xs)
  unfolding sort_slice
  map-sort_slice [] = refl
  map-sort_slice (x ∷ xs) = rw (map-insert_by x (sort_slice (by_key k) xs), map-sort_slice xs)

  map-perm : {xs ys : List A} → Permᴰ xs ys → Permᴰ (map k xs) (map k ys)
  map-perm Permᴰ.nil = Permᴰ.nil
  map-perm (Permᴰ.cons e p) = Permᴰ.cons (ap k e) (map-perm p)
  map-perm (Permᴰ.swap e f) = Permᴰ.swap (ap k e) (ap k f)
  map-perm (Permᴰ.trans p q) = Permᴰ.trans (map-perm p) (map-perm q)

  -- The keys in sorted order depend on no order, equal keys included.
  pub map-sort_slice_perm_invariant :
      {xs ys : List A}
      → Permᴰ xs ys
      → map k (sort_slice (by_key k) xs) ≡ map k (sort_slice (by_key k) ys)
  map-sort_slice_perm_invariant {xs} {ys} p =
      map-sort_slice xs ∙ sort_bytes_perm_invariant (map-perm p) ∙ sym (map-sort_slice ys)

  insert_by_first :
      (x : A) (xs : List A)
      → All (λ y. by_key k y x ≡ false) xs
      → insert_by (by_key k) x xs ≡ x ∷ xs
  unfolding insert_by
  insert_by_first x [] h = refl
  insert_by_first x (y ∷ ys) h = rw (h.0)

  -- A sorted list stays as it is.
  pub sort_sorted : (xs : List A) → IsSorted (by_key k) xs → sort_slice (by_key k) xs ≡ xs
  unfolding sort_slice
  sort_sorted [] h = refl
  sort_sorted (x ∷ xs) h = rw (sort_sorted xs h.1) (insert_by_first x xs h.0)
