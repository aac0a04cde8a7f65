-- ===== src/Tests/Samples.antt =====
-- Concrete instances of the interfaces, two accounts and a blocksign document.
use mitum_data_blocksign.Prelude.{
  ℤ, pos, negsuc, ◌+◌, ◌+ℤ◌, sub_ℕ, pos_part, neg_part, Bytes, codes, bytes_eq, true, false, Option,
  none, some, List, [], ◌∷◌, ◌++◌, ltb, length, if◌then◌else◌, ◌≡◌, refl, ok, err, panic, fail_if,
  for_each, for_each-ok,
}
use mitum_data_blocksign.Error.{external}
use mitum_data_blocksign.Mitum.{Outcome, new_hint, Util, UtilLaws, Addresses, flatten_bytes}
use mitum_data_blocksign.DocId.{DocIdKind}
use mitum_data_blocksign.DocInfo.{DocInfo, bs_doc_data_type}
use mitum_data_blocksign.DocParts.{new_doc_sign}
use mitum_data_blocksign.DocData.{DocumentData, BsDocData, bs_doc, new_bs_doc_data}
use mitum_data_blocksign.Inventory.{DocumentInventory}
use mitum_data_blocksign.Chain.{Chain, ChainLaws, Value, AccountKeys, GetState}

-- Addresses are texts; the empty one is invalid.
instance abbrev pub text_addresses : Addresses Bytes
text_addresses = record {
  address_string = λ x. x;
  address_bytes = λ x. x;
  address_equal = bytes_eq;
  address_is_valid = λ x. fail_if (ltb (length x) 1) (external []);
}

abbrev pub sample_big_bytes : ℤ → Bytes
sample_big_bytes (pos n) = 0 ∷ n ∷ []
sample_big_bytes (negsuc n) = 1 ∷ n ∷ []

instance abbrev pub sample_util : Util
sample_util = record {
  concat_bytes = flatten_bytes;
  uint_to_bytes = λ n. n ∷ [];
  big_bytes = sample_big_bytes;
  sha256 = λ x. x;
  hinter_is_valid = λ h. ok tt;
  type_is_valid = λ t. ok tt;
  currency_id_is_valid = λ cid. fail_if (ltb (length cid) 3) (external cid);
  hash_is_valid = λ h. fail_if (ltb (length h) 1) (external []);
  check = for_each (λ v. v);
}

instance pub sample_util_laws : UtilLaws
sample_util_laws = record { check_iff = for_each-ok (λ v. v); concat_flatten = λ bs. refl }

-- A state, with what it may hold.
pub record Cell : Type 0 where
  pub value : Option (Value Bytes)
  pub keys : Option (AccountKeys Bytes)
  pub balance : ℤ

-- An amount in a currency, and the fee in it.
pub record Coins : Type 0 where
  pub cid : Bytes
  pub left : ℤ
  pub paid : ℤ

abbrev pub minus : ℤ → ℤ → ℤ
minus a b = sub_ℕ (pos_part a + neg_part b) (neg_part a + pos_part b)

abbrev pub keys_or : Option (AccountKeys Bytes) → Outcome (AccountKeys Bytes)
keys_or none = err (external [])
keys_or (some k) = ok k

abbrev pub cells : Chain Bytes Cell Bytes Coins
cells = record {
  state_value = λ s. s.value;
  set_value = λ s v. ok (record s { value = some v });
  state_key_account = λ x. x ++ codes ":account";
  state_key_balance = λ x cid. x ++ codes "-" ++ cid;
  state_keys_value = λ s. keys_or s.keys;
  state_balance_value = λ s. ok s.balance;
  zero_amount_state = record { cid = []; left = pos 0; paid = pos 0 };
  new_amount_state = λ s cid. record { cid = cid; left = s.balance; paid = pos 0 };
  sub = λ m x. record m { left = minus m.left x };
  add_fee = λ m x. record m { paid = m.paid +ℤ x };
  fee = λ m. m.paid;
  currency = λ m. m.cid;
}

pub cells_laws : ChainLaws cells
cells_laws = record { set_value-value = λ s v t h. set s v t h }
  where
    set :
        (s : Cell) (v : Value Bytes) (t : Cell)
        → ◌≡◌ {A = Outcome Cell} (ok (record s { value = some v })) (ok t)
        → t.value ≡ some v
    set s v t h = cc

abbrev pub alice : Bytes
alice = codes "al"

abbrev pub bob : Bytes
bob = codes "bo"

abbrev pub mcc : Bytes
mcc = codes "MCC"

abbrev pub first_id : Bytes
first_id = codes "1sdi"

abbrev pub first_info : DocInfo
first_info = record {
  hint = new_hint "mitum-document-info";
  id = some (record { kind = DocIdKind.bs; hint = new_hint "mitum-document-id"; s = first_id });
  doc_type = bs_doc_data_type;
}

abbrev pub first_data : BsDocData Bytes
first_data =
    new_bs_doc_data first_info alice (codes "f") (new_doc_sign alice (codes "c") true) (codes "t")
      (pos 1) (new_doc_sign alice (codes "a") true ∷ new_doc_sign bob (codes "b") false ∷ [])

abbrev pub first_doc : DocumentData Bytes
first_doc = bs_doc first_data

abbrev pub first_inventory : DocumentInventory
first_inventory = record { doc_infos = first_info ∷ [] }

abbrev pub one_key : Bytes → AccountKeys Bytes
one_key owner = record { key = λ k. if bytes_eq k owner then some 100 else none; threshold = 100 }

abbrev pub account_of : Bytes → Cell
account_of x = record { value = none; keys = some (one_key x); balance = pos 0 }

abbrev pub empty_cell : Cell
empty_cell = record { value = none; keys = none; balance = pos 0 }

abbrev pub Table : Type 0
Table = List (Bytes × Cell)

unfoldable pub get_from : Table → GetState Cell
get_from [] k = ok (empty_cell, false)
get_from ((k', s) ∷ m) k = if bytes_eq k' k then ok (s, true) else get_from m k

abbrev pub accounts_only : Table
accounts_only =
    (codes "al:account", account_of alice)
    ∷ (codes "bo:account", account_of bob)
    ∷ (codes "al-MCC", record empty_cell { balance = pos 10 })
    ∷ (codes "bo-MCC", record empty_cell { balance = pos 10 })
    ∷ []

-- The same chain with the document in it.
abbrev pub with_document : Table
with_document =
    (codes "1sdi:DocumentData", record empty_cell { value = some (Value.document_data first_doc) })
    ∷ (
      codes "al:Documents",
      record empty_cell { value = some (Value.document_inventory first_inventory) },
    )
    ∷ accounts_only

-- The result of an outcome, `d` where there is none.
abbrev pub from_ok {ℓ} : {A : Type ℓ} → A → Outcome A → A
from_ok d (ok x) = x
from_ok d (err e) = d
from_ok d panic = d
