-- ===== src/Digest/Accounts.antt =====
-- digest/database.go: `Account`, with the balances and the documents that it loads. And `AccountsByPublickey`, whose
-- pages are in Slices.
pub mod Balances
use mitum_data_blocksign.Prelude.{
  ℕ, zero, suc, ℤ, ltb_ℤ, Bytes, bytes_eq, not, fail_if, ◌>>◌, ltb, length, Bool, Option, none,
  some, List, [], ◌∷◌, ◌++◌, if◌then◌else◌, ok, err, panic, ◌>>=◌,
}
use mitum_data_blocksign.Mitum.{Outcome, Addresses}
use mitum_data_blocksign.Inventory.{DocumentInventory, new_document_inventory}
use mitum_data_blocksign.Chain.{Chain}
use mitum_data_blocksign.State.{state_documents_value}
use mitum_data_blocksign.Digest.Mongo.{text, not_among, equals, Filter, anything, entry}
use mitum_data_blocksign.Digest.Docs.{AccountValue}
use mitum_data_blocksign.Digest.Slices.{visit_all}
use mitum_data_blocksign.Error.{offset_not_over_nil}

-- `GetByFilter` on three collections, the highest document first, with the loading of what it finds:
-- none is `NotFoundError`. And what is read of a state.
pub record Reads (A S : Type 0) : Type 0 where
  pub get_account : Filter → Outcome (Option (AccountValue A))
  pub get_balance : Filter → Outcome (Option S)
  pub get_documents : Filter → Outcome (Option S)
  -- `currency.StateBalanceValue`: a currency and an amount in it
  pub amount_value : S → Outcome (Bytes × ℤ)
  pub height_of : S → ℤ
  pub previous_height_of : S → ℤ

-- `SetHeight` and `SetPreviousHeight`
abbrev pub set_height : {A : Type 0} → ℤ → AccountValue A → AccountValue A
set_height h va = if ltb_ℤ va.height h then record va { height = h } else va

abbrev pub set_previous_height : {A : Type 0} → ℤ → AccountValue A → AccountValue A
set_previous_height h va =
    if ltb_ℤ va.previous_height h then record va { previous_height = h } else va

-- `amm[currency] = amount`
unfoldable pub set_amount : Bytes × ℤ → List (Bytes × ℤ) → List (Bytes × ℤ)
set_amount (cid, big) [] = (cid, big) ∷ []
set_amount (cid, big) ((k, n) ∷ amm) =
    let rest = set_amount (cid, big) amm in if bytes_eq k cid then (k, big) ∷ amm else (k, n) ∷ rest

-- What `balance` has found so far
pub record Found : Type 0 where
  pub cids : List Bytes
  pub amm : List (Bytes × ℤ)
  pub last_height : ℤ
  pub previous_height : ℤ

-- `AccountValue` with its balance and its document
pub record LoadedAccount (A : Type 0) : Type 0 where
  pub va : AccountValue A
  pub balance : List (Bytes × ℤ)
  pub document : DocumentInventory

-- The filter of `balance`
unfoldable pub balance_filter : Bytes → List Bytes → Filter
balance_filter address cids =
    entry "address" (equals (text address))
      (if ltb (length cids) 1 then anything else entry "currency" (not_among cids) anything)

module _ {A S : Type 0} ⦃a : Addresses A⦄ (r : Reads A S) (nil_height : ℤ) where
  unfoldable pub with_balance : S → Bytes × ℤ → Found → Found
  with_balance sta am f =
      let higher = ltb_ℤ f.last_height (r.height_of sta) in
      record {
        cids = f.cids ++ am.0 ∷ [];
        amm = set_amount am f.amm;
        last_height = if higher then r.height_of sta else f.last_height;
        previous_height = if higher then r.previous_height_of sta else f.previous_height;
      }

  -- The loop of `balance`, on fuel; none where the fuel runs out
  unfoldable pub balance_from : ℕ → Bytes → Found → Outcome (Option Found)
  balance_from zero address f = ok none
  balance_from (suc n) address f = r.get_balance (balance_filter address f.cids) >>= λ found.
      elim found [
        | none ↦ ok (some f)
        | some sta ↦ r.amount_value sta >>= λ am. balance_from n address (with_balance sta am f)
      ]

  abbrev pub nothing_found : Found
  nothing_found = record {
    cids = [];
    amm = [];
    last_height = nil_height;
    previous_height = nil_height;
  }

  unfoldable pub balance : ℕ → A → Outcome (Option Found)
  balance fuel x = balance_from fuel (a.address_string x) nothing_found

module _ {A S P M : Type 0} ⦃a : Addresses A⦄ (c : Chain A S P M) (r : Reads A S)
    (nil_height : ℤ) where
  -- `DocumentList`: only `NotFoundError` returns early, and another error leaves the state nil.
  unfoldable pub list_found : Outcome (Option S) → Outcome (DocumentInventory × ℤ × ℤ)
  list_found (ok none) = ok (new_document_inventory [], nil_height, nil_height)
  list_found (err e) = panic
  list_found panic = panic
  list_found (ok (some sta)) = do
    doc ← state_documents_value c sta
    if ltb_ℤ nil_height (r.height_of sta)
        then ok (doc, r.height_of sta, r.previous_height_of sta)
        else ok (doc, nil_height, nil_height)

  unfoldable pub document_list : A → Outcome (DocumentInventory × ℤ × ℤ)
  document_list x =
      list_found (r.get_documents (entry "address" (equals (text (a.address_string x))) anything))

  -- `Account`, over the result of `balance`
  unfoldable pub load_account : A → AccountValue A → Found → Outcome (LoadedAccount A)
  load_account x rs f = do
    (doc, last_height, previous_height) ← document_list x
    ok (record {
      va = set_previous_height previous_height (
          set_height last_height
            (set_previous_height f.previous_height (set_height f.last_height rs)));
      balance = f.amm;
      document = doc;
    })

-- The loop of `AccountsByPublickey` that drops the addresses up to the offset
unfoldable pub after_offset : Bytes → List Bytes → List Bytes
after_offset offset_address [] = []
after_offset offset_address (x ∷ sas) =
    let rest = after_offset offset_address sas in if bytes_eq offset_address x then sas else rest

abbrev pub filtered_address : Bytes → List Bytes → List Bytes
filtered_address offset_address sas =
    if ltb (length offset_address) 1 then sas else after_offset offset_address sas

-- `if len(filteredAddress) < 1 { return nil }`, and the pages
unfoldable pub visit_filtered :
    {D : Type 0} → (List Bytes → D → Outcome (Bool × D)) → List Bytes → D → Outcome D
visit_filtered visit sas d = if ltb (length sas) 1 then ok d else visit_all visit sas d

-- `AccountsByPublickey`: `addresses` is the outcome of `addressesByPublickey`, `visit` that of
-- `filterAccountByPublickey`, whose callback changes a `D`.
unfoldable pub accounts_by_publickey :
    {D : Type 0}
    → ℤ
    → Outcome (List Bytes)
    → (List Bytes → D → Outcome (Bool × D))
    → ℤ
    → Bytes
    → D
    → Outcome D
accounts_by_publickey nil_height addresses visit offset_height offset_address d = do
  fail_if (not (ltb_ℤ nil_height offset_height)) offset_not_over_nil
  sas ← addresses
  if ltb (length sas) 1 then ok d else visit_filtered visit (filtered_address offset_address sas) d
