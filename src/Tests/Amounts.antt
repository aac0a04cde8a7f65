-- ===== src/Tests/Amounts.antt =====
-- Fees, balances and signatures.
use mitum_data_blocksign.Prelude.{
  ℕ, pos, ◌+ℤ◌, ◌≤◌, ◌<◌, Bytes, bytes_eq, some, List, [], ◌∷◌, ok, ◌≡◌, ◌↔◌, refl, arith,
}
use mitum_data_blocksign.State.{check_threshold, exists_state, uint_mod}
use mitum_data_blocksign.State.Threshold.{total_weight, check_threshold_iff}
use mitum_data_blocksign.Fee.{
  CurrencyPool, Required, required_at, set_required, calculate_document_items_fee, calculate_fees,
  item_fee, add_item_fee, check_document_owner_enough_balance, check_balance, balance_at,
}
use mitum_data_blocksign.Fee.Amounts.{count, unit_fee, cost, calculate_document_items_fee-cost}
use mitum_data_blocksign.Fee.Balance.{Covered, enough_balance-Covered}
use mitum_data_blocksign.Tests.Samples.{Coins, cells, alice, mcc, one_key, accounts_only, get_from}

small : (t : ℕ) → total_weight (alice ∷ []) (one_key alice) ≡ some t → t < uint_mod
unfolding total_weight bytes_eq
small t h = ground arith

check_threshold_iff_example :
    (check_threshold (alice ∷ []) (one_key alice) ≡ ok tt)
    ↔ ((t : ℕ) × (total_weight (alice ∷ []) (one_key alice) ≡ some t) × (100 ≤ t))
check_threshold_iff_example = check_threshold_iff (alice ∷ []) (one_key alice) small

abbrev pool : CurrencyPool
pool = some (λ cid. some (ok (pos 2)))

abbrev required : Required
required = (mcc, pos 4, pos 4) ∷ []

required-ok : calculate_document_items_fee pool (mcc ∷ mcc ∷ []) ≡ ok required
unfolding calculate_document_items_fee calculate_fees item_fee add_item_fee required_at set_required
    bytes_eq ◌+ℤ◌
required-ok = refl

calculate_document_items_fee-cost_example :
    required_at mcc required ≡ cost (count mcc (mcc ∷ mcc ∷ [])) (unit_fee pool mcc)
calculate_document_items_fee-cost_example =
    calculate_document_items_fee-cost pool (mcc ∷ mcc ∷ []) mcc required required-ok

abbrev balances : List (Bytes × Coins)
balances = (mcc, record { cid = mcc; left = pos 10; paid = pos 0 }) ∷ []

balances-ok :
    check_document_owner_enough_balance cells alice required (get_from accounts_only) ≡ ok balances
unfolding check_document_owner_enough_balance check_balance exists_state get_from bytes_eq
balances-ok = refl

in-required : required_at mcc required ≡ some (pos 4, pos 4)
unfolding required_at bytes_eq
in-required = refl

enough_balance-Covered_example :
    Covered cells alice (get_from accounts_only) mcc (pos 4) (balance_at cells mcc balances)
enough_balance-Covered_example =
    enough_balance-Covered cells alice (get_from accounts_only) required balances mcc (pos 4)
      (pos 4) balances-ok in-required
