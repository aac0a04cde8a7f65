-- ===== src/Fee.antt =====
-- The fees of document operations: `CalculateDocumentItemsFee`, its two copies for updates and
-- signatures, and `CheckDocumentOwnerEnoughBalance`, in document/create_documents_process.go,
-- document/update_documents_process.go and document/sign_documents_process.go.
-- A Go map is an association list: its entries are visited in the order of their first insertion.
pub mod Amounts
pub mod Balance
use mitum_data_blocksign.Prelude.{
  ℤ, pos, ◌+ℤ◌, ltb_ℤ, Bytes, bytes_eq, Bool, Option, none, some, List, [], ◌∷◌, if◌then◌else◌, ok,
  err, ◌>>=◌, ◌>>◌, map_err, fail_if,
}
use mitum_data_blocksign.Error.{reason, wrapped, unknown_currency, insufficient_balance}
use mitum_data_blocksign.Mitum.{Outcome, Validity}
use mitum_data_blocksign.State.{exists_state}
use mitum_data_blocksign.Chain.{Chain, GetState}

-- `*currency.CurrencyPool`: nil, or the feeer of each currency as the outcome of `Fee(ZeroBig)`.
abbrev pub CurrencyPool : Type 0
CurrencyPool = Option (Bytes → Option (Outcome ℤ))

-- `map[currency.CurrencyID][2]currency.Big`
abbrev pub Required : Type 0
Required = List (Bytes × ℤ × ℤ)

unfoldable pub required_at : Bytes → Required → Option (ℤ × ℤ)
required_at cid [] = none
required_at cid ((k, r, f) ∷ m) = if bytes_eq k cid then some (r, f) else required_at cid m

unfoldable pub set_required : Bytes → ℤ × ℤ → Required → Required
set_required cid (r, f) [] = (cid, r, f) ∷ []
set_required cid (r, f) ((k, r', f') ∷ m) =
    if bytes_eq k cid then (k, r, f) ∷ m else (k, r', f') ∷ set_required cid (r, f) m

-- `k.OverZero()`
abbrev pub over_zero : ℤ → Bool
over_zero k = ltb_ℤ (pos 0) k

abbrev pub or_zero : Option (ℤ × ℤ) → ℤ × ℤ
or_zero none = (pos 0, pos 0)
or_zero (some rq) = rq

-- The fee of one item in a currency, none where the pool is nil.
unfoldable pub item_fee : CurrencyPool → Bytes → Outcome (Option ℤ)
item_fee none cid = ok none
item_fee (some feeers) cid = elim (feeers cid) [
  | none ↦ err (reason unknown_currency)
  | some fee ↦ fee >>= λ k. ok (some k)
]

-- What an item's fee makes of the amounts so far.
unfoldable pub add_item_fee : Option ℤ → ℤ × ℤ → ℤ × ℤ
add_item_fee none rq = rq
add_item_fee (some k) (r, f) = if over_zero k then (r +ℤ k, f +ℤ k) else (r, f)

-- The loop over the items' currencies
unfoldable pub calculate_fees : CurrencyPool → List Bytes → Required → Outcome Required
calculate_fees cp [] required = ok required
calculate_fees cp (cid ∷ cids) required = do
  k ← item_fee cp cid
  calculate_fees cp cids
      (set_required cid (add_item_fee k (or_zero (required_at cid required))) required)

-- `CalculateDocumentItemsFee`, on the currencies of the items
unfoldable pub calculate_document_items_fee : CurrencyPool → List Bytes → Outcome Required
unfolding calculate_fees
calculate_document_items_fee cp cids = calculate_fees cp cids []

-- `CalculateUpdateDocumentItemsFee`
unfoldable pub calculate_update_document_items_fee : CurrencyPool → List Bytes → Outcome Required
unfolding calculate_fees
calculate_update_document_items_fee cp cids = calculate_fees cp cids []

-- `SignDocumentsProcessor.calculateItemsFee`
unfoldable pub calculate_sign_document_items_fee : CurrencyPool → List Bytes → Outcome Required
unfolding calculate_fees
calculate_sign_document_items_fee cp cids = calculate_fees cp cids []

module _ {A S P M : Type 0} (c : Chain A S P M) where
  -- One round of `CheckDocumentOwnerEnoughBalance`
  unfoldable pub check_balance : A → Bytes → ℤ → GetState S → Outcome M
  check_balance holder cid rq get_state = do
    st ← exists_state (c.state_key_balance holder cid) "currency of holder" get_state
    am ← map_err reason (c.state_balance_value st)
    fail_if (ltb_ℤ am rq) (reason insufficient_balance)
    ok (c.new_amount_state st cid)

  -- `CheckDocumentOwnerEnoughBalance`
  unfoldable pub check_document_owner_enough_balance :
      A → Required → GetState S → Outcome (List (Bytes × M))
  check_document_owner_enough_balance holder [] get_state = ok []
  check_document_owner_enough_balance holder ((cid, rq, _) ∷ required) get_state = do
    m ← check_balance holder cid rq get_state
    sb ← check_document_owner_enough_balance holder required get_state
    ok ((cid, m) ∷ sb)

  unfoldable pub balance_at : Bytes → List (Bytes × M) → M
  balance_at cid [] = c.zero_amount_state
  balance_at cid ((k, m) ∷ sb) = if bytes_eq k cid then m else balance_at cid sb

  -- `opp.sb[k].Sub(rq[0]).AddFee(rq[1])` for each required amount
  unfoldable pub charge : Required → List (Bytes × M) → List M
  charge [] sb = []
  charge ((cid, r, f) ∷ required) sb =
      c.add_fee (c.sub (balance_at cid sb) r) f ∷ charge required sb
