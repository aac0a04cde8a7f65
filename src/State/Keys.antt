-- ===== src/State/Keys.antt =====
-- The keys of states: the two families do not meet, and each is recognised by its suffix.
use mitum_data_blocksign.Prelude.{
  ℕ, ◌-◌, Bytes, bytes_eq_iff, bytes_eq_refl, has_suffix, leb, length, drop, length-append,
  drop-append_length, take, take-append-drop, true, false, [], ◌∷◌, ◌++◌, ◌≡◌, ◌≢◌, refl, sym, ap,
  ◌∙◌, arith, Bool-cases, inl, inr,
}
use mitum_data_blocksign.Mitum.{Addresses}
use mitum_data_blocksign.State.{
  state_key_documents_suffix, state_key_document_data_suffix, state_key_document_data,
  is_state_document_data_key, state_key_documents, is_state_documents_key,
}

has_suffix-append : (s suffix : Bytes) → has_suffix (s ++ suffix) suffix ≡ true
unfolding has_suffix
has_suffix-append s suffix =
    let split : length (s ++ suffix) - length suffix ≡ length s =
      omega (arith, length-append s suffix) in
    let fits : leb (length suffix) (length (s ++ suffix)) ≡ true =
      ground (arith, length-append s suffix) in
    rw (fits, split, drop-append_length s suffix) (bytes_eq_refl suffix)

-- The last byte, after `n` where there is none.
final : ℕ → Bytes → ℕ
final n [] = n
final n (x ∷ xs) = final x xs

final-append : (n : ℕ) (s : Bytes) (x : ℕ) (xs : Bytes) → final n (s ++ x ∷ xs) ≡ final x xs
unfolding final
final-append n [] x xs = refl
final-append n (y ∷ s) x xs = final-append y s x xs

suffix_joined :
    (s suffix : Bytes)
    → has_suffix s suffix ≡ true
    → s ≡ take (length s - length suffix) s ++ suffix
unfolding has_suffix
suffix_joined s suffix h =
    let n = length s - length suffix in
    let e : drop n s ≡ suffix = (bytes_eq_iff (drop n s) suffix).0 (ground arith) in
    sym (take-append-drop n s) ∙ ap (λ t. take n s ++ t) e

final_of_suffix :
    (s : Bytes) (x : ℕ) (xs : Bytes) → has_suffix s (x ∷ xs) ≡ true → final 0 s ≡ final x xs
final_of_suffix s x xs h =
    ap (final 0) (suffix_joined s (x ∷ xs) h)
    ∙ final-append 0 (take (length s - length (x ∷ xs)) s) x xs

other_suffix :
    (s : Bytes) (x : ℕ) (xs : Bytes) → final 0 s ≢ final x xs → has_suffix s (x ∷ xs) ≡ false
other_suffix s x xs ne = elim (Bool-cases (has_suffix s (x ∷ xs))) [
  | inl h ↦ absurd (ne (final_of_suffix s x xs h))
  | inr h ↦ h
]

module _ {A : Type 0} ⦃a : Addresses A⦄ where
  -- The key of a document and the key of an account's inventory are recognised as what they are, and
  -- neither as the other, whatever the id and the address; so they are never equal.
  pub state_keys_apart :
      (documentid : Bytes) (x : A)
      → (is_state_document_data_key (state_key_document_data documentid) ≡ true)
        × (is_state_documents_key (state_key_document_data documentid) ≡ false)
        × (is_state_documents_key (state_key_documents x) ≡ true)
        × (is_state_document_data_key (state_key_documents x) ≡ false)
        × (state_key_document_data documentid ≢ state_key_documents x)
  unfolding state_key_document_data is_state_document_data_key state_key_documents
      is_state_documents_key final
  state_keys_apart documentid x =
      let data_end : final 0 (documentid ++ state_key_document_data_suffix) ≡ 97 =
        final-append 0 documentid _ _ in
      let inventory_end : final 0 (a.address_string x ++ state_key_documents_suffix) ≡ 115 =
        final-append 0 (a.address_string x) _ _ in
      (
        has_suffix-append documentid state_key_document_data_suffix,
        other_suffix (documentid ++ state_key_document_data_suffix) _ _
            (λ e. omega (arith, data_end, e)),
        has_suffix-append (a.address_string x) state_key_documents_suffix,
        other_suffix (a.address_string x ++ state_key_documents_suffix) _ _
            (λ e. omega (arith, inventory_end, e)),
        λ e. omega (arith, data_end, inventory_end, ap (final 0) e),
      )
