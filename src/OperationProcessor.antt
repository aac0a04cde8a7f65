-- ===== src/OperationProcessor.antt =====
-- document/operation_processor.go: `OperationProcessor`. Maps are association lists, of which only the
-- lookups are read; `S` is a state that is no `currency.AmountState`, and `M` one that is.
pub mod Duplication
pub mod Fees
pub mod Dispatch
pub mod Proposal
use mitum_data_blocksign.Prelude.{
  ℤ, pos, ◌+ℤ◌, Bytes, bytes_eq, ltb, length, Bool, true, false, ◌||◌, Option, none, some, List, [],
  ◌∷◌, ◌++◌, map, if◌then◌else◌, ok, err, panic, ◌>>=◌, ◌>>◌, fail_if, map_err,
}
use mitum_data_blocksign.Error.{
  Error, reason, wrapped, one_sender_per_proposal, duplicated_currency, new_address_processed,
  needs_processor, failed_to_get_addresses,
}
use mitum_data_blocksign.Mitum.{Outcome, Validity, Addresses}
use mitum_data_blocksign.Chain.{Chain}
use mitum_data_blocksign.Fee.{over_zero}

pub data DuplicationType : Type 0 where
  duplication_type_sender duplication_type_currency : DuplicationType

-- What the processor reads of an operation: of mitum-currency's the sender, the targets or the
-- currency, and of the document operations the sender of the fact.
pub data Operation (A : Type 0) : Type 0 where
  transfers key_updater sign_documents create_documents update_documents : A → Operation A
  create_accounts : A → Outcome (List A) → Operation A
  currency_register currency_policy_updater : Bytes → Operation A
  suffrage_inflation : Operation A
  other_operation : Operation A

-- `OperationProcessor`, the part that checks and sums: `fee`, `duplicated`, `duplicatedNewAddress`
pub record OperationProcessor : Type 0 where
  pub fee : List (Bytes × ℤ)
  pub duplicated : List (Bytes × DuplicationType)
  pub duplicated_new_address : List Bytes

-- The maps that `New` makes
abbrev pub new : OperationProcessor
new = record { fee = []; duplicated = []; duplicated_new_address = [] }

unfoldable pub lookup : {V : Type 0} → Bytes → List (Bytes × V) → Option V
lookup k [] = none
lookup k ((k', v) ∷ m) = if bytes_eq k' k then some v else lookup k m

unfoldable pub registered : {V : Type 0} → Bytes → List (Bytes × V) → Bool
registered k m = elim (lookup k m) [ none ↦ false | some _ ↦ true ]

unfoldable pub put : {V : Type 0} → Bytes → V → List (Bytes × V) → List (Bytes × V)
put k v m = (k, v) ∷ m

-- The fee so far, `currency.ZeroBig` where the currency is not in the map
unfoldable pub fee_of : Bytes → List (Bytes × ℤ) → ℤ
fee_of cid fee = elim (lookup cid fee) [ none ↦ pos 0 | some f ↦ f ]

unfoldable pub has_key : Bytes → List Bytes → Bool
has_key k [] = false
has_key k (k' ∷ m) = bytes_eq k' k || has_key k m

-- The states that `setState` takes: `sts[i].(currency.AmountState)` tells them apart.
pub data Written (S M : Type 0) : Type 0 where
  plain : S → Written S M
  amount : M → Written S M

module _ {A S P M : Type 0} (c : Chain A S P M) where
  -- The body of the loop of `setState`, for a `currency.AmountState`
  unfoldable pub add_fee : M → List (Bytes × ℤ) → List (Bytes × ℤ)
  add_fee t fee =
      if over_zero (c.fee t)
      then put (c.currency t) (fee_of (c.currency t) fee +ℤ c.fee t) fee
      else fee

  unfoldable pub sum_fees : List (Written S M) → List (Bytes × ℤ) → List (Bytes × ℤ)
  sum_fees [] fee = fee
  sum_fees (plain s ∷ sts) fee = sum_fees sts fee
  sum_fees (amount t ∷ sts) fee = sum_fees sts (add_fee t fee)

  -- `setState`; `set` is `opr.pool.Set`.
  unfoldable pub set_state :
      (List (Written S M) → Validity)
      → List (Written S M)
      → OperationProcessor
      → Validity × OperationProcessor
  set_state set sts opr = (set sts, record opr { fee = sum_fees sts opr.fee })

unfoldable pub duplication_error : DuplicationType → Error
duplication_error duplication_type_sender = one_sender_per_proposal
duplication_error duplication_type_currency = duplicated_currency

-- `if len(did) > 0 { … }`: the map with the key, or the error
unfoldable pub check_key :
    Bytes
    → DuplicationType
    → List (Bytes × DuplicationType)
    → Outcome (List (Bytes × DuplicationType))
check_key did didtype duplicated =
    if ltb 0 (length did)
    then (if registered did duplicated
        then err (duplication_error didtype)
        else ok (put did didtype duplicated))
    else ok duplicated

module _ {A : Type 0} ⦃a : Addresses A⦄ where
  -- The type switch of `checkDuplication`: the key, its type, and the new addresses; none is `return nil`.
  unfoldable pub keys_of : Operation A → Outcome (Option (Bytes × DuplicationType × List A))
  keys_of (transfers sender) = ok (some (a.address_string sender, duplication_type_sender, []))
  keys_of (create_accounts sender (ok targets)) =
      ok (some (a.address_string sender, duplication_type_sender, targets))
  keys_of (create_accounts sender (err e)) = err failed_to_get_addresses
  keys_of (create_accounts sender panic) = panic
  keys_of (key_updater target) = ok (some (a.address_string target, duplication_type_sender, []))
  keys_of (currency_register cid) = ok (some (cid, duplication_type_currency, []))
  keys_of (currency_policy_updater cid) = ok (some (cid, duplication_type_currency, []))
  keys_of (sign_documents sender) = ok (some (a.address_string sender, duplication_type_sender, []))
  keys_of (create_documents sender) =
      ok (some (a.address_string sender, duplication_type_sender, []))
  keys_of (update_documents sender) =
      ok (some (a.address_string sender, duplication_type_sender, []))
  keys_of suffrage_inflation = ok none
  keys_of other_operation = ok none

  -- `checkNewAddressDuplication`: its two loops
  unfoldable pub any_processed : List A → List Bytes → Bool
  any_processed [] seen = false
  any_processed (x ∷ xs) seen = has_key (a.address_string x) seen || any_processed xs seen

  unfoldable pub put_addresses : List A → List Bytes → List Bytes
  put_addresses [] seen = seen
  put_addresses (x ∷ xs) seen = put_addresses xs (a.address_string x ∷ seen)

  unfoldable pub check_new_address_duplication : List A → List Bytes → Outcome (List Bytes)
  check_new_address_duplication xs seen =
      if any_processed xs seen then err new_address_processed else ok (put_addresses xs seen)

  -- `if len(newAddresses) > 0 { … }`
  unfoldable pub check_targets : List A → OperationProcessor → Validity × OperationProcessor
  check_targets new_addresses opr =
      if ltb 0 (length new_addresses)
      then elim (check_new_address_duplication new_addresses opr.duplicated_new_address) [
        | ok seen ↦ (ok tt, record opr { duplicated_new_address = seen })
        | err e ↦ (err e, opr)
        | panic ↦ (panic, opr)
      ]
      else (ok tt, opr)

  -- What follows the type switch: the key is registered first, so a refused new address leaves it there.
  unfoldable pub check_keys :
      Bytes × DuplicationType × List A → OperationProcessor → Validity × OperationProcessor
  check_keys (did, didtype, new_addresses) opr = elim (check_key did didtype opr.duplicated) [
    | ok duplicated ↦ check_targets new_addresses (record opr { duplicated = duplicated })
    | err e ↦ (err e, opr)
    | panic ↦ (panic, opr)
  ]

  -- `checkDuplication`
  unfoldable pub check_duplication :
      Operation A → OperationProcessor → Validity × OperationProcessor
  check_duplication op opr = elim (keys_of op) [
    | ok none ↦ (ok tt, opr)
    | ok (some keys) ↦ check_keys keys opr
    | err e ↦ (err e, opr)
    | panic ↦ (panic, opr)
  ]

  -- The cases of `getNewProcessor` that want a processor from `SetProcessor`
  unfoldable pub needs_set_processor : Operation A → Bool
  needs_set_processor other_operation = false
  needs_set_processor op = true

  -- `getNewProcessor`; `from_hintset` is the outcome of `getNewProcessorFromHintset`, and none a
  -- processor that is the operation itself.
  unfoldable pub get_new_processor :
      {R : Type 0} → Outcome (Option R) → Operation A → Outcome (Option R)
  get_new_processor from_hintset op = from_hintset >>= λ i. elim i [
    | some r ↦ ok (some r)
    | none ↦ if needs_set_processor op then err needs_processor else ok none
  ]

  -- `PreProcess`; `run` is the `PreProcess` of the new processor. Nothing is registered of an
  -- operation that its processor refuses.
  unfoldable pub pre_process :
      {R : Type 0}
      → Outcome (Option R)
      → (R → Outcome R)
      → Operation A
      → OperationProcessor
      → Outcome (Option R) × OperationProcessor
  pre_process from_hintset run op opr = elim (map_err reason (get_new_processor from_hintset op)) [
    | ok none ↦ (ok none, opr)
    | ok (some sp) ↦ elim (run sp) [
      | ok pop ↦
          let (checked, opr') = check_duplication op opr in
          (map_err (λ e. reason (wrapped e)) checked >> ok (some pop), opr')
      | err e ↦ (err e, opr)
      | panic ↦ (panic, opr)
    ]
    | err e ↦ (err e, opr)
    | panic ↦ (panic, opr)
  ]
