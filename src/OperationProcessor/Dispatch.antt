-- ===== src/OperationProcessor/Dispatch.antt =====
-- `process` and `Close` of document/operation_processor.go: the processors of a proposal one after
-- another, and the fee operation at its end.
use mitum_data_blocksign.Prelude.{
  ℤ, pos, ◌+ℤ◌, int_laws, Bytes, ltb, length, Bool, true, false, ◌&&◌, Bool-cases, inl, inr, Option,
  none, some, List, [], ◌∷◌, ◌++◌, if◌then◌else◌, ok, err, panic, ◌>>◌, ok-injective, >>=-eq-ok,
  ◌≡◌, refl, sym, ap, ◌∙◌, arith,
}
use mitum_data_blocksign.Mitum.{Outcome, Validity}
use mitum_data_blocksign.Chain.{Chain}
use mitum_data_blocksign.OperationProcessor.{
  OperationProcessor, new, Written, plain, amount, set_state, fee_of, lookup,
}
use mitum_data_blocksign.OperationProcessor.Fees.{fee_part, fees_in, sum_fees-fees_in, add_assoc}

-- The types of processors that the switches of `Process` and `process` name
pub data ProcessorKind : Type 0 where
  transfers_processor create_accounts_processor key_updater_processor : ProcessorKind
  currency_register_processor currency_policy_updater_processor suffrage_inflation_processor :
      ProcessorKind
  sign_documents_processor create_documents_processor update_documents_processor : ProcessorKind
  other_processor : ProcessorKind

-- Which processors write through `setState`; the others write to the pool.
unfoldable pub uses_set_state : ProcessorKind → Bool
uses_set_state transfers_processor = true
uses_set_state create_accounts_processor = true
uses_set_state key_updater_processor = true
uses_set_state sign_documents_processor = true
uses_set_state create_documents_processor = true
uses_set_state update_documents_processor = true
uses_set_state _ = false

-- A processor, with the states that its `Process` hands to the setter
abbrev pub Processor : Type 0 → Type 0 → Type 0
Processor S M = ProcessorKind × Outcome (List (Written S M))

module _ {A S P M : Type 0} (c : Chain A S P M) (set : List (Written S M) → Validity) where
  -- The states of a processor, through `setState` or not
  unfoldable pub write_states :
      Bool → List (Written S M) → OperationProcessor → Validity × OperationProcessor
  write_states true sts opr = set_state c set sts opr
  write_states false sts opr = (set sts, opr)

  -- `process`, and `Process` of a processor
  unfoldable pub process : Processor S M → OperationProcessor → Validity × OperationProcessor
  process (kind, ok sts) opr = write_states (uses_set_state kind) sts opr
  process (kind, err e) opr = (err e, opr)
  process (kind, panic) opr = (panic, opr)

  -- The processors of a proposal; one that fails does not stop the others.
  unfoldable pub process_all : List (Processor S M) → OperationProcessor → OperationProcessor
  process_all [] opr = opr
  process_all (sp ∷ sps) opr = process_all sps (process sp opr).1

-- `Close`: the fees that the fee operation takes, or none where no operation is added. `has_pool` says
-- that there is a currency pool, and `charge` is `Process` of the fee operation.
unfoldable pub close :
    Bool → (List (Bytes × ℤ) → Validity) → OperationProcessor → Outcome (Option (List (Bytes × ℤ)))
close has_pool charge opr =
    if has_pool && ltb 0 (length opr.fee) then (charge opr.fee >> ok (some opr.fee)) else ok none

abbrev pub charged : Bytes → Option (List (Bytes × ℤ)) → ℤ
charged cid none = pos 0
charged cid (some fee) = fee_of cid fee

no_fees :
    (cid : Bytes) (fee : List (Bytes × ℤ)) → ltb 0 (length fee) ≡ false → pos 0 ≡ fee_of cid fee
unfolding fee_of lookup
no_fees cid [] h = refl
no_fees cid (f ∷ fee) h = absurd (grind arith)

close-charged :
    (cid : Bytes) (charge : List (Bytes × ℤ) → Validity) (opr : OperationProcessor)
    (r : Option (List (Bytes × ℤ)))
    → close true charge opr ≡ ok r
    → charged cid r ≡ fee_of cid opr.fee
unfolding close
close-charged cid charge opr r e = elim (Bool-cases (ltb 0 (length opr.fee))) [
  | inl some_fee ↦
      let (_, taken, e1) = >>=-eq-ok (charge opr.fee) _ (rw some_fee at e) in
      ap (charged cid) (sym (ok-injective e1))
  | inr no_fee ↦
      let same : none ≡ r = ok-injective (rw no_fee at e) in
      ap (charged cid) (sym same) ∙ no_fees cid opr.fee no_fee
]

starts_empty : (cid : Bytes) (f : ℤ) → fee_of cid new.fee +ℤ f ≡ f
unfolding fee_of lookup
starts_empty cid f = omega int_laws

module _ {A S P M : Type 0} (c : Chain A S P M) (set : List (Written S M) → Validity) where
  -- The states that count for the fees of a proposal
  abbrev pub counted : List (Processor S M) → List (Written S M)
  counted [] = []
  counted ((kind, ok sts) ∷ sps) = if uses_set_state kind then sts ++ counted sps else counted sps
  counted ((kind, err e) ∷ sps) = counted sps
  counted ((kind, panic) ∷ sps) = counted sps

  fees_in-append :
      (cid : Bytes) (xs ys : List (Written S M))
      → fees_in c cid (xs ++ ys) ≡ fees_in c cid xs +ℤ fees_in c cid ys
  unfolding fees_in
  fees_in-append cid [] ys = omega int_laws
  fees_in-append cid (plain s ∷ xs) ys = fees_in-append cid xs ys
  fees_in-append cid (amount t ∷ xs) ys =
      ap (λ f. fee_part c cid t +ℤ f) (fees_in-append cid xs ys)
      ∙ sym (add_assoc (fee_part c cid t) (fees_in c cid xs) (fees_in c cid ys))

  write_states-fees :
      (through : Bool) (cid : Bytes) (sts rest : List (Written S M)) (opr : OperationProcessor)
      → fee_of cid (write_states c set through sts opr).1.fee +ℤ fees_in c cid rest
        ≡ fee_of cid opr.fee +ℤ fees_in c cid (if through then sts ++ rest else rest)
  unfolding write_states set_state
  write_states-fees true cid sts rest opr =
      ap (λ f. f +ℤ fees_in c cid rest) (sum_fees-fees_in c cid sts opr.fee)
      ∙ add_assoc (fee_of cid opr.fee) (fees_in c cid sts) (fees_in c cid rest)
      ∙ ap (λ f. fee_of cid opr.fee +ℤ f) (sym (fees_in-append cid sts rest))
  write_states-fees false cid sts rest opr = refl

  process_all-fees :
      (cid : Bytes) (sps : List (Processor S M)) (opr : OperationProcessor)
      → fee_of cid (process_all c set sps opr).fee
        ≡ fee_of cid opr.fee +ℤ fees_in c cid (counted sps)
  unfolding process_all process fees_in
  process_all-fees cid [] opr = omega int_laws
  process_all-fees cid ((kind, err e) ∷ sps) opr = process_all-fees cid sps opr
  process_all-fees cid ((kind, panic) ∷ sps) opr = process_all-fees cid sps opr
  process_all-fees cid ((kind, ok sts) ∷ sps) opr =
      process_all-fees cid sps (write_states c set (uses_set_state kind) sts opr).1
      ∙ write_states-fees (uses_set_state kind) cid sts (counted sps) opr

  -- What `Close` charges in a currency after a proposal is the sum of the positive fees that its
  -- processors wrote through `setState`, where there is a currency pool; nothing is charged where no
  -- such fee was written.
  pub close-fees :
      (cid : Bytes) (sps : List (Processor S M)) (charge : List (Bytes × ℤ) → Validity)
      (r : Option (List (Bytes × ℤ)))
      → close true charge (process_all c set sps new) ≡ ok r
      → charged cid r ≡ fees_in c cid (counted sps)
  close-fees cid sps charge r e =
      close-charged cid charge (process_all c set sps new) r e
      ∙ process_all-fees cid sps new
      ∙ starts_empty cid (fees_in c cid (counted sps))
