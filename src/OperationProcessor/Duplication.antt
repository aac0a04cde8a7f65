-- ===== src/OperationProcessor/Duplication.antt =====
-- What `checkDuplication` keeps apart in a proposal.
use mitum_data_blocksign.Prelude.{
  Bytes, bytes_eq, bytes_eq_iff, ltb, length, Bool, true, false, ◌||◌, none, some, List, [], ◌∷◌,
  map, ◌≡◌, refl, subst, if◌then◌else◌, ok, err, arith, Bool-cases, inl, inr, ◌⊎◌, Result-cases,
}
use mitum_data_blocksign.Error.{new_address_processed}
use mitum_data_blocksign.Mitum.{Validity, Addresses}
use mitum_data_blocksign.OperationProcessor.{
  DuplicationType, duplication_error, Operation, OperationProcessor, registered, lookup, put,
  has_key, keys_of, check_key, any_processed, put_addresses, check_new_address_duplication,
  check_targets, check_keys, check_duplication,
}

-- What a proposal must not use twice: a sender or currency, or the address of a new account.
pub data Mark : Type 0 where
  key address : Bytes → Mark

unfoldable pub seen : OperationProcessor → Mark → Bool
seen opr (key k) = registered k opr.duplicated
seen opr (address k) = has_key k opr.duplicated_new_address

put-registered :
    {V : Type 0} (k q : Bytes) (v : V) (m : List (Bytes × V))
    → registered q (put k v m) ≡ (bytes_eq k q || registered q m)
unfolding registered put lookup
put-registered k q v m = ground arith

abbrev with_key :
    Bytes → DuplicationType → List (Bytes × DuplicationType) → List (Bytes × DuplicationType)
with_key did t m = if ltb 0 (length did) then put did t m else m

check_key-cases :
    (did : Bytes) (t : DuplicationType) (m : List (Bytes × DuplicationType))
    → ((check_key did t m ≡ ok (with_key did t m))
        × (ltb 0 (length did) ≡ true → registered did m ≡ false))
      ⊎ (check_key did t m ≡ err (duplication_error t))
unfolding check_key
check_key-cases did t m = elim (Bool-cases (ltb 0 (length did))) [
  | inl keyed ↦ elim (Bool-cases (registered did m)) [
    | inl taken ↦ inr (rw (keyed, taken) refl)
    | inr free ↦ inl (rw (keyed, free) refl, λ _. free)
  ]
  | inr unkeyed ↦ inl (rw unkeyed refl, λ e. cc)
]

with_key-registered :
    (did : Bytes) (t : DuplicationType) (m : List (Bytes × DuplicationType)) (q : Bytes)
    → registered q (with_key did t m)
      ≡ ((if ltb 0 (length did) then bytes_eq did q else false) || registered q m)
with_key-registered did t m q = ground (arith, put-registered did q t m)

module _ {A : Type 0} ⦃a : Addresses A⦄ where
  has_mark : Bytes × DuplicationType × List A → Mark → Bool
  has_mark (did, didtype, targets) (key k) = if ltb 0 (length did) then bytes_eq did k else false
  has_mark (did, didtype, targets) (address k) = has_key k (map a.address_string targets)

  -- The operation uses the mark.
  pub uses : Operation A → Mark → Bool
  unfolding has_mark
  uses op m = elim (keys_of op) [ ok (some keys) ↦ has_mark keys m | _ ↦ false ]

  put_addresses-has_key :
      (k : Bytes) (xs : List A) (seen : List Bytes)
      → has_key k (put_addresses xs seen) ≡ (has_key k (map a.address_string xs) || has_key k seen)
  unfolding put_addresses has_key
  put_addresses-has_key k [] seen = refl
  put_addresses-has_key k (x ∷ xs) seen =
      ground (arith, put_addresses-has_key k xs (a.address_string x ∷ seen))

  any_processed-has_key :
      (k : Bytes) (xs : List A) (seen : List Bytes)
      → any_processed xs seen ≡ false
      → has_key k (map a.address_string xs) ≡ true
      → has_key k seen ≡ false
  unfolding any_processed has_key
  any_processed-has_key k [] seen h m = cc
  any_processed-has_key k (x ∷ xs) seen h m =
      ground (arith, any_processed-has_key k xs seen, bytes_eq_iff (a.address_string x) k)

  abbrev with_targets : List A → OperationProcessor → OperationProcessor
  with_targets targets opr = record opr {
    duplicated_new_address = put_addresses targets opr.duplicated_new_address;
  }

  check_targets-cases :
      (targets : List A) (opr : OperationProcessor)
      → ((check_targets targets opr ≡ (ok tt, with_targets targets opr))
          × (any_processed targets opr.duplicated_new_address ≡ false))
        ⊎ (check_targets targets opr ≡ (err new_address_processed, opr))
  unfolding check_targets check_new_address_duplication any_processed put_addresses
  check_targets-cases [] opr = inl (refl, refl)
  check_targets-cases (x ∷ targets) opr =
      let more : ltb 0 (length (x ∷ targets)) ≡ true = ground arith in
      elim (Bool-cases (any_processed (x ∷ targets) opr.duplicated_new_address)) [
        | inl taken ↦ inr (rw (more, taken) refl)
        | inr free ↦ inl (rw (more, free) refl, free)
      ]

  -- An operation with keys passes, or has its key or one of its new addresses refused.
  data Outcomes (did : Bytes) (t : DuplicationType) (targets : List A) (opr : OperationProcessor)
      : Validity × OperationProcessor → Type 0 where
    passed :
        (ltb 0 (length did) ≡ true → registered did opr.duplicated ≡ false)
        → any_processed targets opr.duplicated_new_address ≡ false
        → Outcomes did t targets opr (
          ok tt,
          with_targets targets (record opr { duplicated = with_key did t opr.duplicated }),
        )
    key_refused : Outcomes did t targets opr (err (duplication_error t), opr)
    target_refused :
        Outcomes did t targets opr
          (err new_address_processed, record opr { duplicated = with_key did t opr.duplicated })

  check_keys-Outcomes :
      (did : Bytes) (t : DuplicationType) (targets : List A) (opr : OperationProcessor)
      → Outcomes did t targets opr (check_keys (did, t, targets) opr)
  unfolding check_keys
  check_keys-Outcomes did t targets opr = elim (check_key-cases did t opr.duplicated) [
    | inl (e, free) ↦
        elim (check_targets-cases targets
          (record opr { duplicated = with_key did t opr.duplicated })) [
            | inl (f, unseen) ↦ rw (check_keys, e, f) (passed free unseen)
            | inr f ↦ rw (check_keys, e, f) target_refused
          ]
    | inr e ↦ rw (check_keys, e) key_refused
  ]

  has_targets :
      (targets : List A) (opr : OperationProcessor) (k : Bytes)
      → has_key k (with_targets targets opr).duplicated_new_address
        ≡ (has_key k (map a.address_string targets) || has_key k opr.duplicated_new_address)
  has_targets targets opr k = put_addresses-has_key k targets opr.duplicated_new_address

  Outcomes-grows :
      (did : Bytes) (t : DuplicationType) (targets : List A) (opr : OperationProcessor)
      (r : Validity × OperationProcessor) (m : Mark)
      → Outcomes did t targets opr r
      → seen opr m ≡ true
      → seen r.1 m ≡ true
  unfolding seen
  Outcomes-grows did t targets opr r (key k) (passed f u) s =
      ground (arith, with_key-registered did t opr.duplicated k)
  Outcomes-grows did t targets opr r (key k) key_refused s = s
  Outcomes-grows did t targets opr r (key k) target_refused s =
      ground (arith, with_key-registered did t opr.duplicated k)
  Outcomes-grows did t targets opr r (address k) (passed f u) s =
      ground (arith, has_targets targets opr k)
  Outcomes-grows did t targets opr r (address k) key_refused s = s
  Outcomes-grows did t targets opr r (address k) target_refused s = s

  Outcomes-passes :
      (did : Bytes) (t : DuplicationType) (targets : List A) (opr opr' : OperationProcessor)
      (m : Mark)
      → Outcomes did t targets opr (ok tt, opr')
      → has_mark (did, t, targets) m ≡ true
      → (seen opr m ≡ false) × (seen opr' m ≡ true)
  unfolding seen has_mark
  Outcomes-passes did t targets opr opr' (key k) (passed f u) s =
      ground (arith, with_key-registered did t opr.duplicated k, bytes_eq_iff did k)
  Outcomes-passes did t targets opr opr' (address k) (passed f u) s = ground (
    arith,
    has_targets targets opr k,
    any_processed-has_key k targets opr.duplicated_new_address u,
  )

  pub check_duplication-grows :
      (op : Operation A) (opr : OperationProcessor) (m : Mark)
      → seen opr m ≡ true
      → seen (check_duplication op opr).1 m ≡ true
  unfolding check_duplication
  check_duplication-grows op opr m s = elim (Result-cases (keys_of op)) [
    | inl (none, e) ↦ rw (check_duplication, e) s
    | inl (some (did, t, targets), e) ↦
        rw (check_duplication, e)
          (Outcomes-grows did t targets opr (check_keys (did, t, targets) opr) m
            (check_keys-Outcomes did t targets opr) s)
    | inr (inl (x, e)) ↦ rw (check_duplication, e) s
    | inr (inr e) ↦ rw (check_duplication, e) s
  ]

  pub check_duplication-passes :
      (op : Operation A) (opr opr' : OperationProcessor) (m : Mark)
      → check_duplication op opr ≡ (ok tt, opr')
      → uses op m ≡ true
      → (seen opr m ≡ false) × (seen opr' m ≡ true)
  unfolding check_duplication uses
  check_duplication-passes op opr opr' m h u = elim (Result-cases (keys_of op)) [
    | inl (none, e) ↦ cc (rw (uses, e) at u)
    | inl (some (did, t, targets), e) ↦
        Outcomes-passes did t targets opr opr' m
          (subst (Outcomes did t targets opr) (rw (check_duplication, e) at h)
            (check_keys-Outcomes did t targets opr))
          (rw (uses, e) at u)
    | inr (inl (x, e)) ↦ cc (rw (uses, e) at u)
    | inr (inr e) ↦ cc (rw (uses, e) at u)
  ]
