-- ===== src/State.antt =====
-- document/state.go, document/signs.go and document/keys.go: state keys, values, and signatures.
pub mod Threshold
pub mod Values
pub mod Keys
use Prim.Native.String.{String}
use mitum_data_blocksign.Prelude.{
  ℕ, Bytes, codes, has_suffix, Bool, not, Option, none, some, List, [], ◌∷◌, ◌++◌, ◌+◌, ◌%◌, ltb,
  if◌then◌else◌, ok, err, ◌>>=◌, ◌>>◌, fail_if, map_err,
}
use mitum_data_blocksign.Error.{
  reason, document_data_not_found, inventory_not_found, wrong_value_type, state_does_not_exist,
  named_state_does_not_exist, unknown_key, not_passed_threshold,
}
use mitum_data_blocksign.Mitum.{Outcome, Validity, Addresses}
use mitum_data_blocksign.DocData.{DocumentData}
use mitum_data_blocksign.Inventory.{DocumentInventory}
use mitum_data_blocksign.Chain.{
  Chain, Value, document_data, document_inventory, AccountKeys, GetState,
}

abbrev pub state_key_documents_suffix : Bytes
state_key_documents_suffix = codes ":Documents"

abbrev pub state_key_document_data_suffix : Bytes
state_key_document_data_suffix = codes ":DocumentData"

unfoldable pub state_key_document_data : Bytes → Bytes
state_key_document_data documentid = documentid ++ state_key_document_data_suffix

unfoldable pub is_state_document_data_key : Bytes → Bool
is_state_document_data_key key = has_suffix key state_key_document_data_suffix

unfoldable pub state_key_documents : {A : Type 0} ⦃a : Addresses A⦄ → A → Bytes
state_key_documents ⦃a⦄ x = a.address_string x ++ state_key_documents_suffix

unfoldable pub is_state_documents_key : Bytes → Bool
is_state_documents_key key = has_suffix key state_key_documents_suffix

-- The type switches on a state's value
unfoldable pub as_document_data : {A : Type 0} → Option (Value A) → Outcome (DocumentData A)
as_document_data none = err document_data_not_found
as_document_data (some (document_data d)) = ok d
as_document_data (some _) = err wrong_value_type

unfoldable pub as_document_inventory : {A : Type 0} → Option (Value A) → Outcome DocumentInventory
as_document_inventory none = err inventory_not_found
as_document_inventory (some (document_inventory d)) = ok d
as_document_inventory (some _) = err wrong_value_type

-- `checkExistsState`
unfoldable pub check_exists_state : {S : Type 0} → Bytes → GetState S → Validity
check_exists_state key get_state = do
  (st, found) ← get_state key
  fail_if (not found) (reason (state_does_not_exist key))

-- `existsState`
unfoldable pub exists_state : {S : Type 0} → Bytes → String → GetState S → Outcome S
exists_state k name get_state = do
  (st, found) ← get_state k
  if found then ok st else err (reason (named_state_does_not_exist name))

-- `uint` has 64 bits.
abbrev pub uint_mod : ℕ
uint_mod = 18446744073709551616

-- The loop of `checkThreshold`, over the signers of the fact signs
unfoldable pub sum_weights : {P : Type 0} → List P → AccountKeys P → ℕ → Outcome ℕ
sum_weights [] keys sum = ok sum
sum_weights (signer ∷ fs) keys sum = elim (keys.key signer) [
  | none ↦ err unknown_key
  | some weight ↦ sum_weights fs keys ((sum + weight) % uint_mod)
]

-- `checkThreshold`
unfoldable pub check_threshold : {P : Type 0} → List P → AccountKeys P → Validity
check_threshold fs keys = do
  sum ← sum_weights fs keys 0
  fail_if (ltb sum keys.threshold) not_passed_threshold

module _ {A S P M : Type 0} (c : Chain A S P M) where
  -- `StateDocumentDataValue`
  unfoldable pub state_document_data_value : S → Outcome (DocumentData A)
  unfolding as_document_data
  state_document_data_value st = as_document_data (c.state_value st)

  -- `SetStateDocumentDataValue`
  unfoldable pub set_state_document_data_value : S → DocumentData A → Outcome S
  set_state_document_data_value st v = c.set_value st (document_data v)

  -- `StateDocumentsValue`
  unfoldable pub state_documents_value : S → Outcome DocumentInventory
  unfolding as_document_inventory
  state_documents_value st = as_document_inventory (c.state_value st)

  -- `SetStateDocumentsValue`
  unfoldable pub set_state_documents_value : S → DocumentInventory → Outcome S
  set_state_documents_value st v = c.set_value st (document_inventory v)

  -- `checkFactSignsByState`
  unfoldable pub check_fact_signs_by_state : A → List P → GetState S → Validity
  check_fact_signs_by_state address fs get_state = do
    st ← exists_state (c.state_key_account address) "keys of account" get_state
    keys ← map_err reason (c.state_keys_value st)
    map_err reason (check_threshold fs keys)
