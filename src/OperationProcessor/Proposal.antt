-- ===== src/OperationProcessor/Proposal.antt =====
-- The operations of a proposal, which go through `PreProcess` one after the other.
use mitum_data_blocksign.Prelude.{
  true, false, Option, none, some, List, [], ◌∷◌, ◌≡◌, subst, All, Bool-cases, Result-cases, inl,
  inr, ok, err, panic, ◌>>◌, map_err,
}
use mitum_data_blocksign.Error.{reason, wrapped}
use mitum_data_blocksign.Mitum.{Outcome, Validity, Addresses}
use mitum_data_blocksign.OperationProcessor.{
  Operation, OperationProcessor, get_new_processor, check_duplication, pre_process,
}
use mitum_data_blocksign.OperationProcessor.Duplication.{
  Mark, seen, uses, check_duplication-grows, check_duplication-passes,
}

module _ {A : Type 0} ⦃a : Addresses A⦄ where
  -- No two operations of the list use one mark.
  abbrev pub UseApart : List (Operation A) → Type 0
  UseApart [] = Unit
  UseApart (op ∷ ops) =
      ((m : Mark) → uses op m ≡ true → All (λ op'. uses op' m ≡ false) ops) × UseApart ops

checked-ok :
    {R : Type 0} (r : Validity × OperationProcessor) (x p : R) (opr' : OperationProcessor)
    → ◌≡◌ {A = Outcome (Option R) × OperationProcessor}
        (map_err (λ e. reason (wrapped e)) r.0 >> ok (some x), r.1)
        (ok (some p), opr')
    → r ≡ (ok tt, opr')
checked-ok (ok tt, opr) x p opr' h = cc
checked-ok (err e, opr) x p opr' h = cc
checked-ok (panic, opr) x p opr' h = cc

module _ {A R : Type 0} ⦃a : Addresses A⦄ where
  pre_process-grows :
      (from_hintset : Outcome (Option R)) (run : R → Outcome R) (op : Operation A)
      (opr : OperationProcessor) (m : Mark)
      → seen opr m ≡ true
      → seen (pre_process from_hintset run op opr).1 m ≡ true
  unfolding pre_process
  pre_process-grows from_hintset run op opr m s =
      elim (Result-cases (map_err reason (get_new_processor from_hintset op))) [
        | inl (none, e) ↦ rw (pre_process, e) s
        | inl (some sp, e) ↦ elim (Result-cases (run sp)) [
          | inl (pop, f) ↦ rw (pre_process, e, f) (check_duplication-grows op opr m s)
          | inr (inl (x, f)) ↦ rw (pre_process, e, f) s
          | inr (inr f) ↦ rw (pre_process, e, f) s
        ]
        | inr (inl (x, e)) ↦ rw (pre_process, e) s
        | inr (inr e) ↦ rw (pre_process, e) s
      ]

  -- `PreProcess` passes an operation on only after the duplication check passes.
  pre_process-checked :
      (from_hintset : Outcome (Option R)) (run : R → Outcome R) (op : Operation A)
      (opr opr' : OperationProcessor) (p : R)
      → pre_process from_hintset run op opr ≡ (ok (some p), opr')
      → check_duplication op opr ≡ (ok tt, opr')
  unfolding pre_process
  pre_process-checked from_hintset run op opr opr' p h =
      elim (Result-cases (map_err reason (get_new_processor from_hintset op))) [
        | inl (none, e) ↦ cc (rw (pre_process, e) at h)
        | inl (some sp, e) ↦ elim (Result-cases (run sp)) [
          | inl (pop, f) ↦
              checked-ok (check_duplication op opr) pop p opr' (rw (pre_process, e, f) at h)
          | inr (inl (x, f)) ↦ cc (rw (pre_process, e, f) at h)
          | inr (inr f) ↦ cc (rw (pre_process, e, f) at h)
        ]
        | inr (inl (x, e)) ↦ cc (rw (pre_process, e) at h)
        | inr (inr e) ↦ cc (rw (pre_process, e) at h)
      ]

module _ {A : Type 0} ⦃a : Addresses A⦄ (R : Type 0) where
  -- Calls of `PreProcess` one after the other, from one state of the processor to another; the list
  -- holds the operations that pass with a new processor. Of the others the call is of any outcome.
  pub data Proposed : OperationProcessor → List (Operation A) → OperationProcessor → Type 0 where
    nothing : (opr : OperationProcessor) → Proposed opr [] opr
    passes :
        {opr opr' opr'' : OperationProcessor} {ops : List (Operation A)}
        (from_hintset : Outcome (Option R)) (run : R → Outcome R) (op : Operation A) (p : R)
        → pre_process from_hintset run op opr ≡ (ok (some p), opr')
        → Proposed opr' ops opr''
        → Proposed opr (op ∷ ops) opr''
    unlisted :
        {opr opr'' : OperationProcessor} {ops : List (Operation A)}
        (from_hintset : Outcome (Option R)) (run : R → Outcome R) (op : Operation A)
        → Proposed (pre_process from_hintset run op opr).1 ops opr''
        → Proposed opr ops opr''

  Proposed-unused :
      {opr opr' : OperationProcessor} {ops : List (Operation A)} (m : Mark)
      → Proposed opr ops opr'
      → seen opr m ≡ true
      → All (λ op. uses op m ≡ false) ops
  Proposed-unused m (nothing opr) s = tt
  Proposed-unused m (passes {opr = opr} {opr' = opr'} from_hintset run op p h q) s =
      elim (Bool-cases (uses op m)) [
        | inl u ↦ cc (
            (check_duplication-passes op opr opr' m
              (pre_process-checked from_hintset run op opr opr' p h) u).0)
        | inr u ↦ (
          u,
          Proposed-unused m q (
              subst (λ (r : Outcome (Option R) × OperationProcessor). seen r.1 m ≡ true) h
                (pre_process-grows from_hintset run op opr m s)),
        )
      ]
  Proposed-unused m (unlisted {opr = opr} from_hintset run op q) s =
      Proposed-unused m q (pre_process-grows from_hintset run op opr m s)

  -- Whatever the operations of a proposal and their order, those that `PreProcess` passes share no
  -- sender, no currency that they register or update, and no address of a new account.
  pub Proposed-UseApart :
      {opr opr' : OperationProcessor} {ops : List (Operation A)}
      → Proposed opr ops opr'
      → UseApart ops
  Proposed-UseApart (nothing opr) = tt
  Proposed-UseApart (passes {opr = opr} {opr' = opr'} from_hintset run op p h q) = (
    λ m u.
        Proposed-unused m q
          (check_duplication-passes op opr opr' m
            (pre_process-checked from_hintset run op opr opr' p h) u).1,
    Proposed-UseApart q,
  )
  Proposed-UseApart (unlisted from_hintset run op q) = Proposed-UseApart q
