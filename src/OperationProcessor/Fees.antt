-- ===== src/OperationProcessor/Fees.antt =====
-- The fees that `setState` sums for the fee operation that `Close` makes.
use mitum_data_blocksign.Prelude.{
  ℤ, pos, ◌+ℤ◌, int_laws, Bytes, bytes_eq, bytes_eq_iff, List, [], ◌∷◌, ◌≡◌, refl, ◌∙◌, ap, inl,
  inr, Bool-cases, if◌then◌else◌, arith,
}
use mitum_data_blocksign.Mitum.{Validity}
use mitum_data_blocksign.Chain.{Chain}
use mitum_data_blocksign.Fee.{over_zero}
use mitum_data_blocksign.OperationProcessor.{
  Written, plain, amount, lookup, put, fee_of, add_fee, sum_fees, set_state, OperationProcessor,
}

fee_of-put :
    (q k : Bytes) (f : ℤ) (m : List (Bytes × ℤ))
    → fee_of q (put k f m) ≡ (if bytes_eq k q then f else fee_of q m)
unfolding fee_of put lookup
fee_of-put q k f m = ground arith

add_zero : (f : ℤ) → f ≡ f +ℤ pos 0
add_zero f = omega int_laws

pub add_assoc : (x y z : ℤ) → x +ℤ y +ℤ z ≡ x +ℤ (y +ℤ z)
add_assoc x y z = omega int_laws

module _ {A S P M : Type 0} (c : Chain A S P M) where
  -- What one state adds to the fees in a currency.
  pub fee_part : Bytes → M → ℤ
  fee_part cid t =
      if over_zero (c.fee t)
      then (if bytes_eq (c.currency t) cid then c.fee t else pos 0)
      else pos 0

  -- The sum of the positive fees in a currency, counted from the states.
  unfoldable pub fees_in : Bytes → List (Written S M) → ℤ
  fees_in cid [] = pos 0
  fees_in cid (plain s ∷ sts) = fees_in cid sts
  fees_in cid (amount t ∷ sts) = fee_part cid t +ℤ fees_in cid sts

  fee_of-add_fee :
      (cid : Bytes) (t : M) (fee : List (Bytes × ℤ))
      → fee_of cid (add_fee c t fee) ≡ fee_of cid fee +ℤ fee_part cid t
  unfolding add_fee fee_part
  fee_of-add_fee cid t fee = elim (Bool-cases (over_zero (c.fee t))) [
    | inl over ↦ elim (Bool-cases (bytes_eq (c.currency t) cid)) [
      | inl same ↦
          let k : c.currency t ≡ cid = (bytes_eq_iff (c.currency t) cid).0 same in
          rw (over, fee_of-put cid (c.currency t) (fee_of (c.currency t) fee +ℤ c.fee t) fee, same)
            (ap (λ q. fee_of q fee +ℤ c.fee t) k)
      | inr other ↦
          rw (over, fee_of-put cid (c.currency t) (fee_of (c.currency t) fee +ℤ c.fee t) fee, other)
            (add_zero (fee_of cid fee))
    ]
    | inr under ↦ rw under (add_zero (fee_of cid fee))
  ]

  pub sum_fees-fees_in :
      (cid : Bytes) (sts : List (Written S M)) (fee : List (Bytes × ℤ))
      → fee_of cid (sum_fees c sts fee) ≡ fee_of cid fee +ℤ fees_in cid sts
  unfolding sum_fees fees_in
  sum_fees-fees_in cid [] fee = add_zero (fee_of cid fee)
  sum_fees-fees_in cid (plain s ∷ sts) fee = sum_fees-fees_in cid sts fee
  sum_fees-fees_in cid (amount t ∷ sts) fee =
      sum_fees-fees_in cid sts (add_fee c t fee)
      ∙ rw (fee_of-add_fee cid t fee)
          (add_assoc (fee_of cid fee) (fee_part cid t) (fees_in cid sts))

  -- `setState` adds to the fees of each currency the positive fees that the states carry in it, and
  -- changes nothing else of the processor.
  pub set_state-fees :
      (set : List (Written S M) → Validity) (sts : List (Written S M)) (opr : OperationProcessor)
      (cid : Bytes)
      → (fee_of cid (set_state c set sts opr).1.fee ≡ fee_of cid opr.fee +ℤ fees_in cid sts)
        × ((set_state c set sts opr).1.duplicated ≡ opr.duplicated)
        × ((set_state c set sts opr).1.duplicated_new_address ≡ opr.duplicated_new_address)
        × ((set_state c set sts opr).0 ≡ set sts)
  unfolding set_state
  set_state-fees set sts opr cid = (sum_fees-fees_in cid sts opr.fee, refl, refl, refl)
