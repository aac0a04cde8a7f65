-- ===== src/Chain.antt =====
-- The interfaces of mitum and mitum-currency to the state of the chain. None of that code is in the
-- repository; `S` is `state.State`, `P` a public key, `M` a `currency.AmountState`.
use mitum_data_blocksign.Prelude.{ℕ, ℤ, Bytes, Bool, Option, some, ◌≡◌, ok}
use mitum_data_blocksign.Mitum.{Outcome}
use mitum_data_blocksign.DocData.{DocumentData}
use mitum_data_blocksign.Inventory.{DocumentInventory}

-- What `Value().Interface()` of a state holds, as far as the document package tells it apart.
pub data Value (A : Type 0) : Type 0 where
  document_data : DocumentData A → Value A
  document_inventory : DocumentInventory → Value A
  other : Value A

-- `currency.AccountKeys`: the weight of each key, and the threshold.
pub record AccountKeys (P : Type 0) : Type 0 where
  pub key : P → Option ℕ
  pub threshold : ℕ

pub record Chain (A S P M : Type 0) : Type 0 where
  -- `st.Value()`, nil or a value; `state.NewHintedValue` followed by `st.SetValue`
  pub state_value : S → Option (Value A)
  pub set_value : S → Value A → Outcome S
  -- `currency.StateKeyAccount`, `StateKeyBalance`, `StateKeysValue`, `StateBalanceValue`
  pub state_key_account : A → Bytes
  pub state_key_balance : A → Bytes → Bytes
  pub state_keys_value : S → Outcome (AccountKeys P)
  pub state_balance_value : S → Outcome ℤ
  -- `currency.AmountState`: its zero value, `NewAmountState`, `Sub`, `AddFee`, `Fee`, `Currency`
  pub zero_amount_state : M
  pub new_amount_state : S → Bytes → M
  pub sub : M → ℤ → M
  pub add_fee : M → ℤ → M
  pub fee : M → ℤ
  pub currency : M → Bytes

pub record ChainLaws {A S P M : Type 0} (c : Chain A S P M) : Type 0 where
  -- A state that took a value holds it.
  pub set_value-value :
      (s : S) (v : Value A) (t : S) → c.set_value s v ≡ ok t → c.state_value t ≡ some v

-- `getState`: the state of a key, and whether it is on the chain.
abbrev pub GetState : Type 0 → Type 0
GetState S = Bytes → Outcome (S × Bool)
