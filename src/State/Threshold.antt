-- ===== src/State/Threshold.antt =====
-- What `checkThreshold` and the checks of states require.
use Prim.Native.String.{String}
use mitum_data_blocksign.Prelude.{
  ℕ, ◌+◌, ◌<◌, ◌≤◌, ◌%◌, Bytes, true, Option, none, some, List, [], ◌∷◌, ◌≡◌, ◌≢◌, ap, ◌∙◌, ◌↔◌, ok,
  >>=-eq-ok, map_err, map_err-ok, arith, Option-cases, inl, inr,
}
use mitum_data_blocksign.Error.{reason}
use mitum_data_blocksign.Chain.{Chain, AccountKeys, GetState}
use mitum_data_blocksign.State.{
  check_exists_state, exists_state, uint_mod, sum_weights, check_threshold,
  check_fact_signs_by_state,
}

-- The weights of the signers, summed without a bound; none where a signer is unknown.
unfoldable pub total_weight : {P : Type 0} → List P → AccountKeys P → Option ℕ
total_weight [] keys = some 0
total_weight (signer ∷ fs) keys = elim (keys.key signer) [
  | none ↦ none
  | some w ↦ elim (total_weight fs keys) [ none ↦ none | some t ↦ some (w + t) ]
]

total_weight-cons :
    {P : Type 0} (signer : P) (fs : List P) (keys : AccountKeys P) (t : ℕ)
    → total_weight (signer ∷ fs) keys ≡ some t
    → (w : ℕ) × (rest : ℕ) × (keys.key signer ≡ some w)
      × (total_weight fs keys ≡ some rest)
      × (t ≡ w + rest)
unfolding total_weight
total_weight-cons signer fs keys t h = elim (Option-cases (keys.key signer)) [
  | inl unknown ↦ cc (rw (unknown, total_weight) at h)
  | inr (w, known) ↦ elim (Option-cases (total_weight fs keys)) [
    | inl unknown ↦ ground arith
    | inr (rest, total) ↦ (w, rest, known, total, ground arith)
  ]
]

sum_weights-total :
    {P : Type 0} (fs : List P) (keys : AccountKeys P) (sum t : ℕ)
    → total_weight fs keys ≡ some t
    → sum + t < uint_mod
    → sum_weights fs keys sum ≡ ok (sum + t)
unfolding sum_weights
sum_weights-total [] keys sum t h b = unfold total_weight in ground arith
sum_weights-total (signer ∷ fs) keys sum t h b =
    let (w, rest, known, total, split) = total_weight-cons signer fs keys t h in
    let small : (sum + w) % uint_mod ≡ sum + w = omega arith in
    let step : sum + w + rest ≡ sum + t = omega arith in
    rw (known, sum_weights, small)
      (sum_weights-total fs keys (sum + w) rest total (omega arith) ∙ ap ok step)

sum_weights-known :
    {P : Type 0} (fs : List P) (keys : AccountKeys P) (sum s : ℕ)
    → sum_weights fs keys sum ≡ ok s
    → total_weight fs keys ≢ none
unfolding sum_weights total_weight
sum_weights-known [] keys sum s h e = cc
sum_weights-known (signer ∷ fs) keys sum s h e = elim (Option-cases (keys.key signer)) [
  | inl unknown ↦ ground arith
  | inr (w, known) ↦
      sum_weights-known fs keys ((sum + w) % uint_mod) s (ground arith) (ground arith)
]

-- Where the weights do not overflow, `checkThreshold` passes exactly when every signer is a known key
-- and the weights of the signers reach the threshold.
pub check_threshold_iff :
    {P : Type 0} (fs : List P) (keys : AccountKeys P)
    → ((t : ℕ) → total_weight fs keys ≡ some t → t < uint_mod)
    → (check_threshold fs keys ≡ ok tt)
      ↔ ((t : ℕ) × (total_weight fs keys ≡ some t) × (keys.threshold ≤ t))
unfolding check_threshold
check_threshold_iff fs keys bounded = elim (Option-cases (total_weight fs keys)) [
  | inl unknown ↦ (
    λ h.
        let (sum, e, h1) = >>=-eq-ok (sum_weights fs keys 0) _ h in
        absurd (sum_weights-known fs keys 0 sum e unknown),
    λ (t, e, _). cc,
  )
  | inr (t, total) ↦
      let sum = sum_weights-total fs keys 0 t total (omega (arith, bounded t total)) in
      (λ h. (t, total, ground arith), λ (t', e, reached). ground arith)
]

pub check_exists-found :
    {S : Type 0} (k : Bytes) (gs : GetState S)
    → check_exists_state k gs ≡ ok tt
    → (st : S) × (gs k ≡ ok (st, true))
unfolding check_exists_state
check_exists-found k gs h = let ((st, found), e, h1) = >>=-eq-ok (gs k) _ h in (st, ground arith)

exists_state-on_chain :
    {S : Type 0} (k : Bytes) (name : String) (gs : GetState S) (st : S)
    → exists_state k name gs ≡ ok st
    → gs k ≡ ok (st, true)
unfolding exists_state
exists_state-on_chain k name gs st h = ground arith

-- The account is on the chain, and the signers pass the threshold of the keys that it holds.
pub record SignedBy {A S P M : Type 0} (c : Chain A S P M) (address : A) (fs : List P)
    (gs : GetState S) : Type 0 where
  pub st : S
  pub on_chain : gs (c.state_key_account address) ≡ ok (st, true)
  pub keys : AccountKeys P
  pub held : c.state_keys_value st ≡ ok keys
  pub passed : check_threshold fs keys ≡ ok tt

pub check_fact_signs-SignedBy :
    {A S P M : Type 0} (c : Chain A S P M) (address : A) (fs : List P) (gs : GetState S)
    → check_fact_signs_by_state c address fs gs ≡ ok tt
    → SignedBy c address fs gs
unfolding check_fact_signs_by_state
check_fact_signs-SignedBy c address fs gs h =
    let (st, found, h1) =
      >>=-eq-ok (exists_state (c.state_key_account address) "keys of account" gs) _ h in
    let (keys, value, h2) = >>=-eq-ok (map_err reason (c.state_keys_value st)) _ h1 in
    record {
      st = st;
      on_chain = exists_state-on_chain (c.state_key_account address) "keys of account" gs st found;
      keys = keys;
      held = (map_err-ok reason (c.state_keys_value st) keys).0 value;
      passed = (map_err-ok reason (check_threshold fs keys) tt).0 h2;
    }
