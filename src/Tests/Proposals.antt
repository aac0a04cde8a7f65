-- ===== src/Tests/Proposals.antt =====
-- A proposal of two operations of one sender, and the fees that it collects.
use mitum_data_blocksign.Prelude.{
  pos, ◌+ℤ◌, Bytes, bytes_eq, Option, some, List, [], ◌∷◌, ◌≡◌, refl, sym, subst, ok, err, true,
}
use mitum_data_blocksign.Mitum.{Outcome}
use mitum_data_blocksign.OperationProcessor.{
  create_documents, sign_documents, OperationProcessor, duplication_type_sender, new, pre_process,
  get_new_processor, needs_set_processor, check_duplication, keys_of, check_keys, check_key,
  check_targets, check_new_address_duplication, duplication_error, registered, lookup, put, has_key,
  fee_of, add_fee, sum_fees, set_state, plain, amount, Written,
}
use mitum_data_blocksign.OperationProcessor.Proposal.{
  Proposed, nothing, passes, unlisted, UseApart, Proposed-UseApart,
}
use mitum_data_blocksign.OperationProcessor.Fees.{fees_in, set_state-fees}
use mitum_data_blocksign.Error.{owner_mismatch}
use mitum_data_blocksign.OperationProcessor.Dispatch.{
  Processor, create_documents_processor, currency_register_processor, update_documents_processor,
  uses_set_state, process, process_all, write_states, close, counted, close-fees,
}
use mitum_data_blocksign.Tests.Samples.{
  text_addresses, Cell, Coins, cells, alice, bob, mcc, empty_cell,
}

abbrev from_hintset : Outcome (Option Bytes)
from_hintset = ok (some [])

-- The sender is registered.
abbrev once : OperationProcessor
once = record new { duplicated = (alice, duplication_type_sender) ∷ [] }

abbrev twice : OperationProcessor
twice = record once {
  duplicated = (bob, duplication_type_sender) ∷ (alice, duplication_type_sender) ∷ [];
}

first-passes : pre_process from_hintset ok (create_documents alice) new ≡ (ok (some []), once)
unfolding pre_process get_new_processor needs_set_processor check_duplication keys_of check_keys
    check_key check_targets check_new_address_duplication duplication_error registered lookup put
    has_key bytes_eq
first-passes = refl

again-refused : (pre_process from_hintset ok (sign_documents alice) once).1 ≡ once
unfolding pre_process get_new_processor needs_set_processor check_duplication keys_of check_keys
    check_key check_targets check_new_address_duplication duplication_error registered lookup put
    has_key bytes_eq
again-refused = refl

other-passes : pre_process from_hintset ok (sign_documents bob) once ≡ (ok (some []), twice)
unfolding pre_process get_new_processor needs_set_processor check_duplication keys_of check_keys
    check_key check_targets check_new_address_duplication duplication_error registered lookup put
    has_key bytes_eq
other-passes = refl

abbrev proposed : Proposed Bytes new (create_documents alice ∷ sign_documents bob ∷ []) twice
proposed = passes from_hintset ok (create_documents alice) [] first-passes (
    unlisted from_hintset ok (sign_documents alice) (
      subst (λ opr. Proposed Bytes opr (sign_documents bob ∷ []) twice) (sym again-refused)
        (passes from_hintset ok (sign_documents bob) [] other-passes (nothing twice))))

Proposed-UseApart_example : UseApart (create_documents alice ∷ sign_documents bob ∷ [])
Proposed-UseApart_example = Proposed-UseApart Bytes proposed

abbrev charged : List (Written Cell Coins)
charged = plain empty_cell ∷ amount (record { cid = mcc; left = pos 8; paid = pos 2 }) ∷ []

set_state-fees_example :
    (fee_of mcc (set_state cells (λ _. ok tt) charged new).1.fee
      ≡ fee_of mcc [] +ℤ fees_in cells mcc charged)
    × ((set_state cells (λ _. ok tt) charged new).1.duplicated ≡ [])
    × ((set_state cells (λ _. ok tt) charged new).1.duplicated_new_address ≡ [])
    × ((set_state cells (λ _. ok tt) charged new).0 ≡ ok tt)
set_state-fees_example = set_state-fees cells (λ _. ok tt) charged new mcc

-- A creation that pays 2, a currency registration and a failed update
abbrev sample_processors : List (Processor Cell Coins)
sample_processors =
    (create_documents_processor, ok charged)
    ∷ (currency_register_processor, ok charged)
    ∷ (update_documents_processor, err owner_mismatch)
    ∷ []

closed :
    close true (λ f. ok tt) (process_all cells (λ _. ok tt) sample_processors new)
    ≡ ok (some (process_all cells (λ _. ok tt) sample_processors new).fee)
unfolding close process_all process write_states set_state sum_fees add_fee uses_set_state put
closed = refl

close-fees_example :
    fee_of mcc (process_all cells (λ _. ok tt) sample_processors new).fee
    ≡ fees_in cells mcc (counted cells (λ _. ok tt) sample_processors)
close-fees_example =
    close-fees cells (λ _. ok tt) mcc sample_processors (λ f. ok tt)
      (some (process_all cells (λ _. ok tt) sample_processors new).fee) closed
