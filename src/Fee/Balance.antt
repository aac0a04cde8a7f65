-- ===== src/Fee/Balance.antt =====
-- What `CheckDocumentOwnerEnoughBalance` guarantees.
use mitum_data_blocksign.Prelude.{
  ℤ, Bytes, bytes_eq, bytes_eq_iff, Bool, true, false, some, List, [], ◌∷◌, ◌≡◌, refl, inl, inr,
  subst, ltb_ℤ, ◌≤ℤ◌, ok, >>=-eq-ok, map_err, map_err-ok, fail_if, ◌>>◌, arith, Bool-cases,
}
use mitum_data_blocksign.Error.{reason, insufficient_balance}
use mitum_data_blocksign.State.{exists_state}
use mitum_data_blocksign.Chain.{Chain, GetState}
use mitum_data_blocksign.Fee.{
  Required, required_at, check_balance, check_document_owner_enough_balance, balance_at,
}

pub exists_state-found :
    {S : Type 0} (k : Bytes) (gs : GetState S) (st : S)
    → exists_state k "currency of holder" gs ≡ ok st
    → gs k ≡ ok (st, true)
unfolding exists_state
exists_state-found k gs st h = ground arith

module _ {A S P M : Type 0} (c : Chain A S P M) (holder : A) (gs : GetState S) where
  -- The holder's balance in a currency is on the chain, covers the amount, and is what is charged.
  pub record Covered (cid : Bytes) (rq : ℤ) (m : M) : Type 0 where
    pub st : S
    pub am : ℤ
    pub on_chain : gs (c.state_key_balance holder cid) ≡ ok (st, true)
    pub balance : c.state_balance_value st ≡ ok am
    pub enough : rq ≤ℤ am
    pub charged : m ≡ c.new_amount_state st cid

  check_balance-Covered :
      (cid : Bytes) (rq : ℤ) (m : M) → check_balance c holder cid rq gs ≡ ok m → Covered cid rq m
  unfolding check_balance
  check_balance-Covered cid rq m h =
      let (st, found, h1) =
        >>=-eq-ok (exists_state (c.state_key_balance holder cid) "currency of holder" gs) _ h in
      let (am, value, h2) = >>=-eq-ok (map_err reason (c.state_balance_value st)) _ h1 in
      let (covers, e) = (fail_if->>-ok' (ltb_ℤ am rq) h2) in
      record {
        st = st;
        am = am;
        on_chain = exists_state-found (c.state_key_balance holder cid) gs st found;
        balance = (map_err-ok reason (c.state_balance_value st) am).0 value;
        enough = ground arith;
        charged = cc;
      }
    where
      fail_if->>-ok' :
          {X : Type 0} {x y : X} (b : Bool)
          → (fail_if b (reason insufficient_balance) >> ok x) ≡ ok y
          → (b ≡ false) × (x ≡ y)
      fail_if->>-ok' true q = cc
      fail_if->>-ok' false q = (refl, cc)

  -- Where the check passes, the balance in each required currency is on the chain and covers the
  -- amount, and the state that will be charged is made of that balance.
  pub enough_balance-Covered :
      (required : Required) (sb : List (Bytes × M)) (q : Bytes) (rq f : ℤ)
      → check_document_owner_enough_balance c holder required gs ≡ ok sb
      → required_at q required ≡ some (rq, f)
      → Covered q rq (balance_at c q sb)
  unfolding check_document_owner_enough_balance required_at balance_at
  enough_balance-Covered [] sb q rq f h r = cc
  enough_balance-Covered ((cid, rq', f') ∷ required) sb q rq f h r =
      let (m, first, h1) = >>=-eq-ok (check_balance c holder cid rq' gs) _ h in
      let (rest, others, h2) =
        >>=-eq-ok (check_document_owner_enough_balance c holder required gs) _ h1 in
      let e : (cid, m) ∷ rest ≡ sb = cc in
      elim (Bool-cases (bytes_eq cid q)) [
        | inl same ↦
            let amount : rq' ≡ rq = ground arith in
            rw (← e, same)
              (subst (λ x. Covered x rq m) ((bytes_eq_iff cid q).0 same)
                (subst (λ x. Covered cid x m) amount (check_balance-Covered cid rq' m first)))
        | inr other ↦
            rw (← e, other) (enough_balance-Covered required rest q rq f others (rw other at r))
      ]
