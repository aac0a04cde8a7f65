-- ===== src/Fee/Amounts.antt =====
-- What the items of an operation cost.
use mitum_data_blocksign.Prelude.{
  ℕ, zero, suc, ℤ, pos, ◌+ℤ◌, int_laws, Bytes, bytes_eq, bytes_eq_iff, Option, none, some, List, [],
  ◌∷◌, ◌≡◌, refl, ◌∙◌, inl, inr, if◌then◌else◌, ok, err, >>=-eq-ok, panic, arith, Bool-cases,
}
use mitum_data_blocksign.Fee.{
  CurrencyPool, Required, required_at, set_required, over_zero, or_zero, item_fee, add_item_fee,
  calculate_fees, calculate_document_items_fee,
}

-- The number of items in a currency.
unfoldable pub count : Bytes → List Bytes → ℕ
count q [] = 0
count q (cid ∷ cids) = if bytes_eq cid q then suc (count q cids) else count q cids

abbrev charge_of : Option ℤ → ℤ
charge_of none = pos 0
charge_of (some k) = if over_zero k then k else pos 0

-- What one item in a currency adds: its fee, where that is over zero.
pub unit_fee : CurrencyPool → Bytes → ℤ
unit_fee cp q = elim (item_fee cp q) [ ok k ↦ charge_of k | err _ ↦ pos 0 | panic ↦ pos 0 ]

pub times : ℕ → ℤ → ℤ
times zero k = pos 0
times (suc n) k = k +ℤ times n k

required_at-set :
    (q cid : Bytes) (v : ℤ × ℤ) (m : Required)
    → required_at q (set_required cid v m) ≡ (if bytes_eq cid q then some v else required_at q m)
unfolding required_at set_required
required_at-set q cid (r, f) [] = refl
required_at-set q cid (r, f) ((k, r', f') ∷ m) = ground (
  arith,
  bytes_eq_iff k cid,
  bytes_eq_iff k q,
  bytes_eq_iff cid q,
  required_at-set q cid (r, f) m,
)

add_zero : (r : ℤ) → r +ℤ pos 0 ≡ r
add_zero r = omega int_laws

add_item_fee-charge_of :
    (k : Option ℤ) (rq : ℤ × ℤ) → add_item_fee k rq ≡ (rq.0 +ℤ charge_of k, rq.1 +ℤ charge_of k)
unfolding add_item_fee
add_item_fee-charge_of none (r, f) = rw (add_zero r, add_zero f) refl
add_item_fee-charge_of (some k) (r, f) = elim (Bool-cases (over_zero k)) [
  | inl over ↦ rw over
  | inr under ↦ rw (under, add_zero r, add_zero f)
]

-- The amounts after `n` more items at the fee `k`.
abbrev after : ℕ → ℤ → Option (ℤ × ℤ) → Option (ℤ × ℤ)
after zero k o = o
after (suc n) k o = after n k (some ((or_zero o).0 +ℤ k, (or_zero o).1 +ℤ k))

unit_fee-charge_of :
    (cp : CurrencyPool) (q : Bytes) (k : Option ℤ)
    → item_fee cp q ≡ ok k
    → unit_fee cp q ≡ charge_of k
unfolding unit_fee
unit_fee-charge_of cp q k h = rw (h, unit_fee) refl

add_item_fee-unit_fee :
    (cp : CurrencyPool) (q : Bytes) (k : Option ℤ) (rq : ℤ × ℤ)
    → item_fee cp q ≡ ok k
    → add_item_fee k rq ≡ (rq.0 +ℤ unit_fee cp q, rq.1 +ℤ unit_fee cp q)
add_item_fee-unit_fee cp q k rq h = rw (unit_fee-charge_of cp q k h) (add_item_fee-charge_of k rq)

after_same :
    (cp : CurrencyPool) (q cid : Bytes) (m : Required) (k : Option ℤ) (n : ℕ)
    → cid ≡ q
    → item_fee cp cid ≡ ok k
    → after n (unit_fee cp q) (some (add_item_fee k (or_zero (required_at cid m))))
      ≡ after (suc n) (unit_fee cp q) (required_at q m)
after_same cp q cid m k n e h =
    rw (add_item_fee-unit_fee cp cid k (or_zero (required_at cid m)) h, e) refl

-- One round of the loop.
after_step :
    (cp : CurrencyPool) (q cid : Bytes) (m : Required) (k : Option ℤ) (n : ℕ)
    → item_fee cp cid ≡ ok k
    → after n
        (unit_fee cp q)
        (required_at q (set_required cid (add_item_fee k (or_zero (required_at cid m))) m))
      ≡ after (if bytes_eq cid q then suc n else n) (unit_fee cp q) (required_at q m)
after_step cp q cid m k n h = elim (Bool-cases (bytes_eq cid q)) [
  | inl same ↦
      rw (required_at-set q cid (add_item_fee k (or_zero (required_at cid m))) m, same)
        (after_same cp q cid m k n ((bytes_eq_iff cid q).0 same) h)
  | inr other ↦
      rw (required_at-set q cid (add_item_fee k (or_zero (required_at cid m))) m, other) refl
]

required_at-calculate :
    (cp : CurrencyPool) (q : Bytes) (cids : List Bytes) (m r : Required)
    → calculate_fees cp cids m ≡ ok r
    → required_at q r ≡ after (count q cids) (unit_fee cp q) (required_at q m)
unfolding calculate_fees count
required_at-calculate cp q [] m r h = let e : m ≡ r = cc in rw e
required_at-calculate cp q (cid ∷ cids) m r h =
    let (k, fee, rest) = >>=-eq-ok (item_fee cp cid) _ h in
    required_at-calculate cp q cids
      (set_required cid (add_item_fee k (or_zero (required_at cid m))) m) r rest
    ∙ after_step cp q cid m k (count q cids) fee

after-some : (n : ℕ) (k r f : ℤ) → after n k (some (r, f)) ≡ some (r +ℤ times n k, f +ℤ times n k)
unfolding times
after-some zero k r f = rw (add_zero r, add_zero f)
after-some (suc n) k r f =
    let assoc : (x : ℤ) → x +ℤ k +ℤ times n k ≡ x +ℤ (k +ℤ times n k) = λ x. omega int_laws in
    after-some n k (r +ℤ k) (f +ℤ k) ∙ rw (assoc r, assoc f) refl

-- What the items in one currency cost.
pub cost : ℕ → ℤ → Option (ℤ × ℤ)
cost zero k = none
cost (suc n) k = some (times (suc n) k, times (suc n) k)

after-none : (n : ℕ) (k : ℤ) → after n k none ≡ cost n k
unfolding cost times
after-none zero k = refl
after-none (suc n) k =
    let first : pos 0 +ℤ k +ℤ times n k ≡ k +ℤ times n k = omega int_laws in
    after-some n k (pos 0 +ℤ k) (pos 0 +ℤ k) ∙ rw first refl

-- Where the fees can be calculated, each currency requires its fee once for each of its items, the
-- amount and the fee alike, and a currency of no item requires nothing.
pub calculate_document_items_fee-cost :
    (cp : CurrencyPool) (cids : List Bytes) (q : Bytes) (r : Required)
    → calculate_document_items_fee cp cids ≡ ok r
    → required_at q r ≡ cost (count q cids) (unit_fee cp q)
unfolding calculate_document_items_fee required_at
calculate_document_items_fee-cost cp cids q r h =
    required_at-calculate cp q cids [] r h ∙ after-none (count q cids) (unit_fee cp q)
