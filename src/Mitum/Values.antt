-- ===== src/Mitum/Values.antt =====
-- mitum/util, mitum/util/hint, mitum/util/isvalid and mitum/base: hints, validity, hashing, addresses.
use Prim.Native.String.{String}
use mitum_data_blocksign.Prelude.{
  ℕ, ℤ, Bytes, List, [], ◌∷◌, ◌++◌, Bool, true, ◌≡◌, ◌↔◌, Result, ok, All,
}
use mitum_data_blocksign.Error.{Error}

-- A call that returns `error`, or a value and an `error`, or panics.
abbrev pub Outcome {ℓ} : Type ℓ → Type ℓ
Outcome A = Result Error A

-- `error` alone: `ok tt` is nil.
abbrev pub Validity : Type 0
Validity = Outcome (Unit {0})

-- `hint.Hint`, as `hint.NewHint` builds it; `hint.BaseHinter` holds one.
pub record Hint : Type 0 where
  pub ty : String
  pub version : String

abbrev pub new_hint : String → Hint
new_hint ty = record { ty = ty; version = "v0.0.1" }

-- The zero value of `hint.BaseHinter`.
abbrev pub zero_hint : Hint
zero_hint = record { ty = ""; version = "" }

pub record Util : Type 0 where
  -- `util.ConcatBytesSlice`, `util.UintToBytes`, `currency.Big.Bytes`, `valuehash.NewSHA256`
  pub concat_bytes : List Bytes → Bytes
  pub uint_to_bytes : ℕ → Bytes
  pub big_bytes : ℤ → Bytes
  pub sha256 : Bytes → Bytes
  -- `hint.BaseHinter.IsValid`, `hint.Type.IsValid`, `currency.CurrencyID.IsValid`,
  -- `valuehash.Hash.IsValid`
  pub hinter_is_valid : Hint → Validity
  pub type_is_valid : String → Validity
  pub currency_id_is_valid : Bytes → Validity
  pub hash_is_valid : Bytes → Validity
  -- `isvalid.Check(nil, false, …)` on the outcomes of its arguments' `IsValid`
  pub check : List Validity → Validity

-- `ConcatBytesSlice` appends the slices in order.
abbrev pub flatten_bytes : List Bytes → Bytes
flatten_bytes [] = []
flatten_bytes (b ∷ bs) = b ++ flatten_bytes bs

pub record UtilLaws ⦃u : Util⦄ : Type 0 where
  -- `isvalid.Check` passes exactly when every argument is valid.
  pub check_iff : (vs : List Validity) → (u.check vs ≡ ok tt) ↔ All (λ v. v ≡ ok tt) vs
  pub concat_flatten : (bs : List Bytes) → u.concat_bytes bs ≡ flatten_bytes bs

-- `base.Address`, a non-nil value of that interface.
pub record Addresses (A : Type 0) : Type 0 where
  pub address_string : A → Bytes
  pub address_bytes : A → Bytes
  pub address_equal : A → A → Bool
  pub address_is_valid : A → Validity

pub record AddressLaws (A : Type 0) ⦃a : Addresses A⦄ : Type 0 where
  -- `Equal` compares addresses; `String` and `Bytes` tell them apart.
  pub equal_iff : (x y : A) → (a.address_equal x y ≡ true) ↔ (x ≡ y)
  pub string_injective : (x y : A) → a.address_string x ≡ a.address_string y → x ≡ y
  pub bytes_injective : (x y : A) → a.address_bytes x ≡ a.address_bytes y → x ≡ y
