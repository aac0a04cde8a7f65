-- ===== src/Process/Writes.antt =====
-- What the processors of document operations share: the checks of accounts, and the states that a
-- processor hands to `setState`.
use mitum_data_blocksign.Prelude.{
  Bool, true, false, not, List, ok, ◌>>=◌, fail_if, >>=-eq-ok, ◌≡◌, refl, ◌↔◌, [], ◌∷◌, All,
  for_each, for_each-ok,
}
use mitum_data_blocksign.Error.{reason, account_not_found}
use mitum_data_blocksign.Mitum.{Validity}
use mitum_data_blocksign.Chain.{Chain, GetState}

-- The arguments of the call of `setState` that ends `Process`: document states, the inventory's state
-- where there is one, then the sender's balances.
pub record Writes (S M : Type 0) : Type 0 where
  pub states : List S
  pub amounts : List M

module _ {A S P M : Type 0} (c : Chain A S P M) where
  -- One round of the loop over the accounts that document data names
  unfoldable pub check_account : GetState S → A → Validity
  check_account get_state x = do
    (st, found) ← get_state (c.state_key_account x)
    fail_if (not found) (reason account_not_found)

  pub check_account-found :
      (gs : GetState S) (x : A)
      → (check_account gs x ≡ ok tt) ↔ ((st : S) × (gs (c.state_key_account x) ≡ ok (st, true)))
  unfolding check_account
  check_account-found gs x = (
    λ h.
        let ((st, found), e, f) = >>=-eq-ok (gs (c.state_key_account x)) _ h in
        (st, found_state st found e f),
    λ (st, e). rw e,
  )
    where
      found_state :
          (st : S) (found : Bool)
          → gs (c.state_key_account x) ≡ ok (st, found)
          → fail_if (not found) (reason account_not_found) ≡ ok tt
          → gs (c.state_key_account x) ≡ ok (st, true)
      found_state st true e f = e
      found_state st false e f = cc

  pub accounts-found :
      (gs : GetState S) (xs : List A)
      → for_each (check_account gs) xs ≡ ok tt
      → All (λ x. (st : S) × (gs (c.state_key_account x) ≡ ok (st, true))) xs
  accounts-found gs [] h = tt
  accounts-found gs (x ∷ xs) h =
      let (first, rest) = (for_each-ok (check_account gs) (x ∷ xs)).0 h in
      (
        (check_account-found gs x).0 first,
        accounts-found gs xs ((for_each-ok (check_account gs) xs).1 rest),
      )

  pub found-accounts :
      (gs : GetState S) (xs : List A)
      → All (λ x. (st : S) × (gs (c.state_key_account x) ≡ ok (st, true))) xs
      → for_each (check_account gs) xs ≡ ok tt
  unfolding for_each
  found-accounts gs [] h = refl
  found-accounts gs (x ∷ xs) h = rw ((check_account-found gs x).1 h.0) (found-accounts gs xs h.1)
