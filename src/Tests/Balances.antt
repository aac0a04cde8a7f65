-- ===== src/Tests/Balances.antt =====
-- Balances in two currencies, loaded one after another.
use mitum_data_blocksign.Prelude.{
  ltb, arith, ℤ, pos, negsuc, Bytes, codes, bytes_eq, bytes_eq_refl, length, Bool, true, false,
  ◌||◌, Bool-cases, inl, inr, Option, none, some, List, [], ◌∷◌, if◌then◌else◌, ok, ok-injective,
  ◌≡◌, refl, subst,
}
use mitum_data_blocksign.Mitum.{Outcome}
use mitum_data_blocksign.Digest.Mongo.{has_text, Filter, entry, not_among, anything}
use mitum_data_blocksign.Digest.Accounts.{
  Reads, Found, balance_filter, balance_from, balance, with_balance, set_amount,
}
use mitum_data_blocksign.Digest.Accounts.Balances.{balance_ends}
use mitum_data_blocksign.Tests.Samples.{text_addresses, alice, mcc}

abbrev Row : Type 0
Row = Bytes × ℤ

unfoldable first_out : List Bytes → List Row → Option Row
first_out cids [] = none
first_out cids (x ∷ xs) = if has_text x.0 cids then first_out cids xs else some x

unfoldable get_row : List Row → Filter → Outcome (Option Row)
get_row rows (entry k c (entry l (not_among cids) f)) = ok (first_out cids rows)
get_row rows (entry k c anything) = ok (first_out [] rows)
get_row rows _ = ok none

abbrev currencies : List Row → List Bytes
currencies [] = []
currencies (x ∷ xs) = x.0 ∷ currencies xs

or_true : (b : Bool) → (b || true) ≡ true
or_true true = refl
or_true false = refl

some_injective : {x y : Row} → some x ≡ some y → x ≡ y
some_injective h = cc

first_out_new :
    (cids : List Bytes) (rows : List Row) (x : Row)
    → first_out cids rows ≡ some x
    → (has_text x.0 (currencies rows) ≡ true) × (has_text x.0 cids ≡ false)
unfolding first_out
first_out_new cids [] x e = cc
first_out_new cids (y ∷ rows) x e = elim (Bool-cases (has_text y.0 cids)) [
  | inl there ↦
      let (known, new_one) = first_out_new cids rows x (rw there at e) in
      (rw known (or_true (bytes_eq x.0 y.0)), new_one)
  | inr absent ↦
      let same : y ≡ x = some_injective (rw absent at e) in
      (
        subst (λ z. has_text z.0 (y.0 ∷ currencies rows) ≡ true) same (rw (bytes_eq_refl y.0) refl),
        subst (λ z. has_text z.0 cids ≡ false) same absent,
      )
]

abbrev sample_rows : List Row
sample_rows = (mcc, pos 5) ∷ (codes "ABC", pos 7) ∷ []

abbrev sample_reads : Reads Bytes Row
sample_reads = record {
  get_account = λ f. ok none;
  get_balance = get_row sample_rows;
  get_documents = λ f. ok none;
  amount_value = λ x. ok x;
  height_of = λ x. pos 1;
  previous_height_of = λ x. pos 0;
}

finds :
    (address : Bytes) (cids : List Bytes) (sta : Row) (am : Row)
    → get_row sample_rows (balance_filter address cids) ≡ ok (some sta)
    → ◌≡◌ {A = Outcome Row} (ok sta) (ok am)
    → (has_text am.0 (currencies sample_rows) ≡ true) × (has_text am.0 cids ≡ false)
unfolding get_row balance_filter
finds address [] sta am e v =
    subst (λ z. (has_text z.0 (currencies sample_rows) ≡ true) × (has_text z.0 [] ≡ false))
      (ok-injective v) (first_out_new [] sample_rows sta (ok-injective e))
finds address (x ∷ cids) sta am e v =
    let many : ltb (length (x ∷ cids)) 1 ≡ false = ground arith in
    let read : ◌≡◌ {A = Outcome (Option Row)} (ok (first_out (x ∷ cids) sample_rows))
        (ok (some sta)) =
      rw many at e in
    subst (λ z. (has_text z.0 (currencies sample_rows) ≡ true) × (has_text z.0 (x ∷ cids) ≡ false))
      (ok-injective v) (first_out_new (x ∷ cids) sample_rows sta (ok-injective read))

loaded : Found
loaded = record {
  cids = mcc ∷ codes "ABC" ∷ [];
  amm = sample_rows;
  last_height = pos 1;
  previous_height = pos 0;
}

loaded_all : balance sample_reads (negsuc 1) 3 alice ≡ ok (some loaded)
unfolding loaded balance balance_from balance_filter with_balance get_row first_out set_amount
    bytes_eq
loaded_all = refl

balance_ends_example : (f : Found) × (some loaded ≡ some f)
balance_ends_example =
    balance_ends sample_reads (negsuc 1) (currencies sample_rows) finds alice (some loaded)
      loaded_all
