-- ===== src/Digest/Docs.antt =====
-- The documents that the digest stores: digest/doc_operation.go, digest/doc_account.go,
-- digest/doc_document.go, digest/account_value.go and digest/document_value.go.
use mitum_data_blocksign.Prelude.{
  ℕ, ℤ, Bytes, Bool, Option, none, some, List, [], ◌∷◌, map, ok, ◌>>=◌, ◌>>◌, fail_if, map_err, not,
}
use mitum_data_blocksign.Error.{Error, not_account_state, wrapped}
use mitum_data_blocksign.Mitum.{Outcome, Validity, Addresses}
use mitum_data_blocksign.DocData.{DocumentData, accounts}
use mitum_data_blocksign.DocData

-- `currency.Account`, as far as the digest reads it; keys may be nil.
pub record Account (A : Type 0) : Type 0 where
  pub address : A
  pub keys : Option (List Bytes)

-- `operation.FixedTreeNode`: the key, whether the operation is in the state, the reason
pub record OperationNode : Type 0 where
  pub key : Bytes
  pub in_state : Bool
  pub reason : Option Error

-- What the digest calls of mitum and mitum-currency. `S` is a state, `O` an operation.
pub record Blocks (A S O : Type 0) : Type 0 where
  -- `op.Fact().Hash().String()`, and `valuehash.NewBytes(key).String()`
  pub fact_hash : O → Bytes
  pub key_hash : Bytes → Bytes
  -- `op.Fact().(currency.Addresses)`, and its `Addresses`
  pub addresses : O → Option (Outcome (List A))
  pub state_key : S → Bytes
  pub state_height : S → ℤ
  pub state_previous_height : S → ℤ
  pub is_state_account_key : Bytes → Bool
  pub is_state_balance_key : Bytes → Bool
  -- `currency.LoadStateAccountValue`, and the currency of `StateBalanceValue`
  pub load_state_account_value : S → Outcome (Account A)
  pub state_balance_currency : S → Outcome Bytes
  -- `mongodbstorage.NewBaseDoc`, which encodes what it stores
  pub operation_base_doc : O → Validity
  pub account_base_doc : Account A → Validity
  pub state_base_doc : S → Validity
  pub document_base_doc : DocumentData A → Validity

pub record OperationValue (O : Type 0) : Type 0 where
  pub op : O
  pub height : ℤ
  pub confirmed_at : ℤ
  pub in_state : Bool
  pub reason : Option Error
  pub index : ℕ

pub record OperationDoc (O : Type 0) : Type 0 where
  pub va : OperationValue O
  pub addresses : List Bytes
  pub height : ℤ

pub record AccountValue (A : Type 0) : Type 0 where
  pub ac : Account A
  pub height : ℤ
  pub previous_height : ℤ

pub record AccountDoc (A : Type 0) : Type 0 where
  pub va : AccountValue A
  pub address : Bytes
  pub height : ℤ
  pub pubs : List Bytes

pub record BalanceDoc (S : Type 0) : Type 0 where
  pub st : S
  pub am_currency : Bytes

pub record DocumentValue (A : Type 0) : Type 0 where
  pub doc : DocumentData A
  pub height : ℤ

pub record DocumentDoc (A : Type 0) : Type 0 where
  pub va : DocumentValue A
  pub addresses : List Bytes
  pub height : ℤ

-- `DocumentsDoc` is its state.
pub data Doc (A S O : Type 0) : Type 0 where
  of_operation : OperationDoc O → Doc A S O
  of_account : AccountDoc A → Doc A S O
  of_balance : BalanceDoc S → Doc A S O
  of_document : DocumentDoc A → Doc A S O
  of_documents : S → Doc A S O

module _ {A S O : Type 0} ⦃a : Addresses A⦄ (b : Blocks A S O) where
  -- The addresses of a fact that has them
  unfoldable pub fact_addresses : Option (Outcome (List A)) → Outcome (List Bytes)
  fact_addresses none = ok []
  fact_addresses (some found) = do xs ← found; ok (map a.address_string xs)

  unfoldable pub new_operation_doc : O → ℤ → ℤ → Bool → Option Error → ℕ → Outcome (OperationDoc O)
  new_operation_doc op height confirmed_at in_state reason index = do
    xs ← fact_addresses (b.addresses op)
    b.operation_base_doc op
    ok (record {
      va = record {
        op = op;
        height = height;
        confirmed_at = confirmed_at;
        in_state = in_state;
        reason = reason;
        index = index;
      };
      addresses = xs;
      height = height;
    })

  -- `NewAccountValue`, over `currencydigest.IsAccountState`
  unfoldable pub new_account_value : S → Outcome (AccountValue A)
  new_account_value st = do
    fail_if (not (b.is_state_account_key (b.state_key st))) not_account_state
    ac ← b.load_state_account_value st
    ok (record {
      ac = ac;
      height = b.state_height st;
      previous_height = b.state_previous_height st;
    })

  abbrev pub public_keys : Option (List Bytes) → List Bytes
  public_keys none = []
  public_keys (some ks) = ks

  unfoldable pub new_account_doc : AccountValue A → Outcome (AccountDoc A)
  new_account_doc rs = do
    b.account_base_doc rs.ac
    ok (record {
      va = rs;
      address = a.address_string rs.ac.address;
      height = rs.height;
      pubs = public_keys rs.ac.keys;
    })

  unfoldable pub new_balance_doc : S → Outcome (BalanceDoc S)
  new_balance_doc st = do
    cid ← map_err wrapped (b.state_balance_currency st)
    b.state_base_doc st
    ok (record { st = st; am_currency = cid })

  -- The owner comes first, then the accounts of the document.
  unfoldable pub new_document_doc : DocumentData A → ℤ → Outcome (DocumentDoc A)
  new_document_doc doc height = do
    b.document_base_doc doc
    ok (record {
      va = record { doc = doc; height = height };
      addresses = a.address_string (DocData.owner doc) ∷ map a.address_string (accounts doc);
      height = height;
    })
