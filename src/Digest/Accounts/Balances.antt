-- ===== src/Digest/Accounts/Balances.antt =====
-- The loop of `balance` ends.
use mitum_data_blocksign.Prelude.{
  ℕ, zero, suc, ◌≤◌, ◌<◌, ℤ, Bytes, bytes_eq, bytes_eq_iff, length, Bool, true, false, ◌||◌,
  Bool-cases, Option-cases, inl, inr, Option, some, List, [], ◌∷◌, ◌++◌, if◌then◌else◌, ok,
  >>=-eq-ok, ok-injective, ◌≡◌, refl, sym, ap, ◌∙◌, subst, arith,
}
use mitum_data_blocksign.Mitum.{Addresses}
use mitum_data_blocksign.Digest.Mongo.{has_text}
use mitum_data_blocksign.Digest.Accounts.{
  Reads, Found, balance_filter, with_balance, balance_from, balance, nothing_found,
}

-- How many of the known currencies are not found yet
abbrev left_out : List Bytes → List Bytes → ℕ
left_out [] cids = 0
left_out (k ∷ known) cids =
    if has_text k cids then left_out known cids else suc (left_out known cids)

or_false : (b : Bool) → (b || false) ≡ b
or_false true = refl
or_false false = refl

or_assoc : (b c d : Bool) → ((b || c) || d) ≡ (b || (c || d))
or_assoc true c d = refl
or_assoc false c d = refl

has_text-snoc :
    (x y : Bytes) (cids : List Bytes)
    → has_text x (cids ++ y ∷ []) ≡ (has_text x cids || bytes_eq x y)
has_text-snoc x y [] = or_false (bytes_eq x y)
has_text-snoc x y (k ∷ cids) =
    ap (λ b. bytes_eq x k || b) (has_text-snoc x y cids)
    ∙ sym (or_assoc (bytes_eq x k) (has_text x cids) (bytes_eq x y))

left_out-length : (known cids : List Bytes) → left_out known cids ≤ length known
left_out-length [] cids = omega arith
left_out-length (k ∷ known) cids = grind (arith, left_out-length known cids)

left_out-snoc :
    (y : Bytes) (known cids : List Bytes) → left_out known (cids ++ y ∷ []) ≤ left_out known cids
left_out-snoc y [] cids = omega arith
left_out-snoc y (k ∷ known) cids = grind (arith, has_text-snoc k y cids, left_out-snoc y known cids)

left_out-found :
    (y : Bytes) (known cids : List Bytes)
    → has_text y known ≡ true
    → has_text y cids ≡ false
    → left_out known (cids ++ y ∷ []) < left_out known cids
left_out-found y [] cids h n = cc
left_out-found y (k ∷ known) cids h n = elim (Bool-cases (bytes_eq y k)) [
  | inl same ↦
      let e : y ≡ k = (bytes_eq_iff y k).0 same in
      let absent : has_text k cids ≡ false = subst (λ x. has_text x cids ≡ false) e n in
      let present : has_text k (cids ++ y ∷ []) ≡ true =
        has_text-snoc k y cids ∙ rw (absent, (bytes_eq_iff k y).1 (sym e)) refl in
      rw (absent, present) (omega (arith, left_out-snoc y known cids))
  | inr other ↦
      let rest = left_out-found y known cids (rw other at h) n in
      grind (arith, rest, has_text-snoc k y cids)
]

module _ {A S : Type 0} ⦃a : Addresses A⦄ (r : Reads A S) (nil_height : ℤ) (known : List Bytes)
    (finds : (address : Bytes) (cids : List Bytes) (sta : S) (am : Bytes × ℤ)
      → r.get_balance (balance_filter address cids) ≡ ok (some sta)
      → r.amount_value sta ≡ ok am
      → (has_text am.0 known ≡ true) × (has_text am.0 cids ≡ false)) where
  with_balance-cids :
      (sta : S) (am : Bytes × ℤ) (f : Found)
      → (with_balance r nil_height sta am f).cids ≡ f.cids ++ am.0 ∷ []
  unfolding with_balance
  with_balance-cids sta am f = refl

  enough_fuel :
      (n : ℕ) (address : Bytes) (f : Found) (found : Option Found)
      → left_out known f.cids < n
      → balance_from r nil_height n address f ≡ ok found
      → (x : Found) × (found ≡ some x)
  unfolding balance_from
  enough_fuel zero address f found l e = absurd (omega arith)
  enough_fuel (suc n) address f found l e =
      let (o, got, e1) = >>=-eq-ok (r.get_balance (balance_filter address f.cids)) _ e in
      elim (Option-cases o) [
        | inl nothing ↦ (f, sym (ok-injective (rw nothing at e1)))
        | inr (sta, something) ↦
            let (am, valued, e2) = >>=-eq-ok (r.amount_value sta) _ (rw something at e1) in
            let (there, new_one) =
              finds address f.cids sta am (got ∙ ap (λ q. ok q) something) valued in
            let same = with_balance-cids sta am f in
            let fewer = left_out-found am.0 known f.cids there new_one in
            enough_fuel n address (with_balance r nil_height sta am f) found
              (rw same (omega (arith, fewer))) e2
      ]

  -- Loading the balances of an account ends: where each query finds a balance in one of the known
  -- currencies that was not found before, one round more than there are currencies is enough.
  pub balance_ends :
      (x : A) (found : Option Found)
      → balance r nil_height (suc (length known)) x ≡ ok found
      → (f : Found) × (found ≡ some f)
  unfolding balance
  balance_ends x found e =
      enough_fuel (suc (length known)) (a.address_string x) (nothing_found r nil_height) found
        (omega (arith, left_out-length known [])) e
