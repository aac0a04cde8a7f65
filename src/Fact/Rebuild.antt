-- ===== src/Fact/Rebuild.antt =====
-- The constructors of facts, `Rebuild` and `Addresses`, which are copies of each other in the three
-- files of facts.
use Prim.Native.String.{String}
use mitum_data_blocksign.Prelude.{
  Bytes, bytes_eq, bytes_eq_refl, bytes_eq_iff, Bool, true, false, not, List, [], ◌∷◌, ok, ◌>>=◌,
  fail_if, >>=-eq-ok, ok-injective, ◌≡◌, refl, sym, ap, ◌∙◌, subst,
}
use mitum_data_blocksign.Error.{wrapped, wrong_fact_hash}
use mitum_data_blocksign.Mitum.{Outcome, new_hint, Util, Addresses}
use mitum_data_blocksign.Fact.{Fact, fact_bytes, generate_fact_hash, check_hash}

not_failed : (b : Bool) → fail_if (not b) (wrapped wrong_fact_hash) ≡ ok tt → b ≡ true
not_failed true e = refl
not_failed false e = cc

module _ {A I : Type 0} ⦃a : Addresses A⦄ ⦃u : Util⦄ (item_bytes : I → Outcome Bytes) where
  -- `NewCreateDocumentsFact` and its copies, over the type of the fact
  unfoldable pub new_fact : String → Bytes → A → List I → Outcome (Fact A I)
  new_fact ty token sender items =
      let fact : Fact A I = record {
        hint = new_hint ty;
        h = [];
        token = token;
        sender = sender;
        items = items;
      } in
      generate_fact_hash item_bytes fact >>= λ h. ok (record fact { h = h })

  -- `Rebuild`; the `Rebuild` of an item is the item.
  unfoldable pub rebuild : Fact A I → Outcome (Fact A I)
  rebuild fact = generate_fact_hash item_bytes fact >>= λ h. ok (record fact { h = h })

  -- `Addresses`
  abbrev pub addresses_of : Fact A I → List A
  addresses_of fact = fact.sender ∷ []

  hash_checked :
      (fact : Fact A I) (h : Bytes)
      → generate_fact_hash item_bytes fact ≡ ok h
      → check_hash item_bytes (record fact { h = h }) ≡ ok tt
  unfolding check_hash generate_fact_hash fact_bytes
  hash_checked fact h e = rw (e, bytes_eq_refl h) refl

  -- A rebuilt fact passes the check of its hash, and a fact that passes it is not changed.
  pub rebuild-check_hash :
      (fact fact' : Fact A I)
      → rebuild fact ≡ ok fact'
      → (check_hash item_bytes fact' ≡ ok tt) × (check_hash item_bytes fact ≡ ok tt → fact' ≡ fact)
  unfolding rebuild check_hash
  rebuild-check_hash fact fact' e =
      let (h, gen, e1) = >>=-eq-ok (generate_fact_hash item_bytes fact) _ e in
      let same : record fact { h = h } ≡ fact' = ok-injective e1 in
      (
        subst (λ x. check_hash item_bytes x ≡ ok tt) same (hash_checked fact h gen),
        λ checked.
            let passed : fail_if (not (bytes_eq fact.h h)) (wrapped wrong_fact_hash) ≡ ok tt =
              rw gen at checked in
            let equal = (bytes_eq_iff fact.h h).0 (not_failed (bytes_eq fact.h h) passed) in
            sym same ∙ ap (λ k. record fact { h = k }) (sym equal),
      )
