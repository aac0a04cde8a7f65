-- ===== src/Prelude/Outcomes.antt =====
-- The outcome of a Go call that returns an error: a value, an error, or a panic (a call of a method
-- on a nil interface, an index out of range).
use mathlib.Core.Path.{◌≡◌, refl}
use mathlib.Core.Logic.{◌↔◌, ◌⊎◌, inl, inr}
use mathlib.Core.Bool.{Bool, true, false}
use mathlib.Core.List.{List, [], ◌∷◌}
use mathlib.Core.Path.{subst}
use mitum_data_blocksign.Prelude.Lists.{All, Pairwise}

-- A Go call ends in one of three ways.
pub data Result {ℓ} (E : Type 0) (A : Type ℓ) : Type ℓ where
  panic : Result E A
  err : E → Result E A
  ok : A → Result E A

infixl 5 ◌>>◌ ◌>>=◌
-- What comes next runs only after `ok`.
abbrev pub ◌>>=◌ {ℓ κ} :
    {E : Type 0} {Y : Type ℓ} {Z : Type κ} → Result E Y → (Y → Result E Z) → Result E Z
panic >>= next = panic
err failure >>= next = err failure
ok y >>= next = next y

abbrev pub ◌>>◌ {ℓ κ} :
    {E : Type 0} {Y : Type ℓ} {Z : Type κ} → Result E Y → Result E Z → Result E Z
step >> next = step >>= (λ y. next)

-- `if test { return e }`.
abbrev pub fail_if : {E : Type 0} → Bool → E → Result E (Unit {0})
fail_if true e = err e
fail_if false e = ok tt

-- `if err := …; err != nil { return wrapped }`.
abbrev pub map_err {ℓ} : {E : Type 0} {A : Type ℓ} → (E → E) → Result E A → Result E A
map_err f (ok a) = ok a
map_err f (err e) = err (f e)
map_err f panic = panic

-- A loop over a list that stops at the first error.
unfoldable pub for_each {ℓ} :
    {E : Type 0} {A : Type ℓ} → (A → Result E (Unit {0})) → List A → Result E (Unit {0})
for_each f [] = ok tt
for_each f (x ∷ xs) = f x >> for_each f xs

-- A loop that collects its results and stops at the first error.
unfoldable pub map_each {ℓ κ} :
    {E : Type 0} {A : Type ℓ} {B : Type κ} → (A → Result E B) → List A → Result E (List B)
map_each f [] = ok []
map_each f (x ∷ xs) = do y ← f x; ys ← map_each f xs; ok (y ∷ ys)

pub ok-injective {ℓ} :
    {E : Type 0} {A : Type ℓ} {x y : A} → ◌≡◌ {A = Result E A} (ok x) (ok y) → x ≡ y
ok-injective h = cc

-- The two steps of a chain that ends in `ok`.
pub >>=-eq-ok {ℓ κ} :
    {E : Type 0} {Y : Type ℓ} {Z : Type κ} (step : Result E Y) (next : Y → Result E Z) {z : Z}
    → (step >>= next) ≡ ok z
    → (y : Y) × (step ≡ ok y) × (next y ≡ ok z)
>>=-eq-ok panic next q = cc
>>=-eq-ok (err failure) next q = cc
>>=-eq-ok (ok y) next q = (y, refl, q)

-- To split on an outcome and keep the equation.
pub Result-cases {ℓ} :
    {E : Type 0} {A : Type ℓ} (r : Result E A)
    → ((a : A) × (r ≡ ok a)) ⊎ ((e : E) × (r ≡ err e)) ⊎ (r ≡ panic)
Result-cases (ok a) = inl (a, refl)
Result-cases (err e) = inr (inl (e, refl))
Result-cases panic = inr (inr refl)

-- When a chain of validity tests passes.
module _ {E : Type 0} where
  pub fail_if->>-ok {ℓ} :
      {B : Type ℓ} (b : Bool) (e : E) (m : Result E B) {x : B}
      → ((fail_if b e >> m) ≡ ok x) ↔ ((b ≡ false) × (m ≡ ok x))
  fail_if->>-ok true e m = (λ h. cc, λ h. cc (h.0))
  fail_if->>-ok false e m = (λ h. (refl, h), λ h. h.1)

  pub >>-ok {ℓ} :
      {B : Type ℓ} (m : Result E (Unit {0})) (k : Result E B) (b : B)
      → ((m >> k) ≡ ok b) ↔ ((m ≡ ok tt) × (k ≡ ok b))
  >>-ok (ok tt) k b = (λ h. (refl, h), λ h. h.1)
  >>-ok (err e) k b = (λ h. cc, λ h. cc (h.0))
  >>-ok panic k b = (λ h. cc, λ h. cc (h.0))

  pub map_err-ok {ℓ} :
      {A : Type ℓ} (f : E → E) (m : Result E A) (a : A) → (map_err f m ≡ ok a) ↔ (m ≡ ok a)
  map_err-ok f (ok x) a = (λ h. h, λ h. h)
  map_err-ok f (err e) a = (λ h. cc, λ h. cc)
  map_err-ok f panic a = (λ h. cc, λ h. cc)

  pub for_each-ok {ℓ} :
      {A : Type ℓ} (f : A → Result E (Unit {0})) (xs : List A)
      → (for_each f xs ≡ ok tt) ↔ All (λ x. f x ≡ ok tt) xs
  unfolding for_each
  for_each-ok f [] = (λ h. tt, λ h. refl)
  for_each-ok f (x ∷ xs) = (
    λ h. let (p, q) = (>>-ok (f x) (for_each f xs) tt).0 h in (p, (for_each-ok f xs).0 q),
    λ h. (>>-ok (f x) (for_each f xs) tt).1 (h.0, (for_each-ok f xs).1 h.1),
  )

-- A loop that collects its results relates each entry to its result.
pub map_each-Pairwise :
    {E A B : Type 0} (R : A → B → Type 0) (f : A → Result E B)
    → ((x : A) (y : B) → f x ≡ ok y → R x y)
    → (xs : List A) (ys : List B) → map_each f xs ≡ ok ys
    → Pairwise R xs ys
unfolding map_each
map_each-Pairwise R f h [] ys e = let same : [] ≡ ys = cc in subst (Pairwise R []) same tt
map_each-Pairwise R f h (x ∷ xs) ys e =
    let (y, first, e1) = >>=-eq-ok (f x) _ e in
    let (rest, others, e2) = >>=-eq-ok (map_each f xs) _ e1 in
    let same : y ∷ rest ≡ ys = cc in
    subst (Pairwise R (x ∷ xs)) same (h x y first, map_each-Pairwise R f h xs rest others)
