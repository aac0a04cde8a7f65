-- ===== src/DocData/Equality.antt =====
-- document/document_data.go: `Equal` of the five kinds. `currency.Big` is compared with `!=`, which
-- looks at what it holds, outside the repository: `same_big` is a parameter. The slices that `Equal`
-- sorts in place are values.
use package.text.Mathlib.Text.{◌==◌ as str_eq}
use package.text.Mathlib.TextEquality.{eq_iff}
use mitum_data_blocksign.Prelude.{
  ℤ, bytes_eq, bytes_eq_iff, ◌==◌, ==_iff, Bool, true, false, not, List, [], ◌∷◌, if◌then◌else◌, ok,
  err, panic, ◌>>=◌, sort_slice, by_key, ◌≡◌, refl, ◌↔◌,
}
use mitum_data_blocksign.Mitum.{Outcome, Util, Addresses, AddressLaws}
use mitum_data_blocksign.DocInfo
use mitum_data_blocksign.DocParts.{
  sign_bytes, sign_equal, candidate_bytes, candidate_equal, statistics_equal,
}
use mitum_data_blocksign.DocData.Records.{
  BsDocData, BcUserData, BcLandData, BcVotingData, BcHistoryData,
}

-- The loops over signers and candidates, which index the argument's slice
unfoldable pub equal_each : {X : Type 0} → (X → X → Bool) → List X → List X → Outcome Bool
equal_each same [] bs = ok true
equal_each same (x ∷ xs) [] = panic
equal_each same (x ∷ xs) (b ∷ bs) = if not (same x b) then ok false else equal_each same xs bs

module _ {A : Type 0} ⦃a : Addresses A⦄ where
  unfoldable pub bs_doc_equal :
      ⦃u : Util⦄ → (ℤ → ℤ → Bool) → BsDocData A → BsDocData A → Outcome Bool
  bs_doc_equal same_big doc b =
      if not (str_eq doc.info.doc_type b.info.doc_type)
      then ok false
      else if not (a.address_equal doc.owner b.owner)
      then ok false
      else if not (sign_equal doc.creator b.creator)
      then ok false
      else if not (bytes_eq doc.file_hash b.file_hash)
      then ok false
      else if not (bytes_eq doc.title b.title)
      then ok false
      else if not (same_big doc.size b.size)
      then ok false
      else equal_each sign_equal (sort_slice (by_key sign_bytes) doc.signers)
          (sort_slice (by_key sign_bytes) b.signers)

  unfoldable pub bc_user_equal : BcUserData A → BcUserData A → Outcome Bool
  bc_user_equal doc b =
      if not (str_eq doc.info.doc_type b.info.doc_type)
      then ok false
      else if not (a.address_equal doc.owner b.owner)
      then ok false
      else if not (doc.gold == b.gold)
      then ok false
      else if not (doc.bankgold == b.bankgold)
      then ok false
      else if not (statistics_equal doc.statistics b.statistics)
      then ok false
      else ok true

  unfoldable pub bc_land_equal : BcLandData A → BcLandData A → Outcome Bool
  bc_land_equal doc b = do
    same ← DocInfo.equal doc.info b.info
    if not same
        then ok false
        else if not (bytes_eq doc.address b.address)
        then ok false
        else if not (bytes_eq doc.area b.area)
        then ok false
        else if not (bytes_eq doc.renter b.renter)
        then ok false
        else if not (a.address_equal doc.account b.account)
        then ok false
        else if not (bytes_eq doc.rentdate b.rentdate)
        then ok false
        else if not (doc.periodday == b.periodday)
        then ok false
        else ok true

  unfoldable pub bc_voting_equal : ⦃u : Util⦄ → BcVotingData A → BcVotingData A → Outcome Bool
  bc_voting_equal doc b = do
    same ← DocInfo.equal doc.info b.info
    if not same
        then ok false
        else if not (a.address_equal doc.owner b.owner)
        then ok false
        else equal_each candidate_equal (sort_slice (by_key candidate_bytes) doc.candidates)
            (sort_slice (by_key candidate_bytes) b.candidates)

  unfoldable pub bc_history_equal : BcHistoryData A → BcHistoryData A → Outcome Bool
  bc_history_equal doc b = do
    same ← DocInfo.equal doc.info b.info
    if not same
        then ok false
        else if not (bytes_eq doc.name b.name)
        then ok false
        else if not (a.address_equal doc.account b.account)
        then ok false
        else if not (bytes_eq doc.date b.date)
        then ok false
        else if not (bytes_eq doc.usage b.usage)
        then ok false
        else if not (bytes_eq doc.application b.application)
        then ok false
        else ok true

-- A test that is passed, before the rest
passed :
    {P Q : Type 0} (b : Bool) (m : Outcome Bool)
    → ((b ≡ true) ↔ P)
    → ((m ≡ ok true) ↔ Q)
    → ((if not b then ok false else m) ≡ ok true) ↔ (P × Q)
passed true m p q = (λ h. (p.0 refl, q.0 h), λ h. q.1 h.1)
passed false m p q = (λ h. cc, λ h. cc (p.1 h.0))

abbrev done : Outcome Bool
done = ok true

last_passed :
    {P : Type 0} (b : Bool) → ((b ≡ true) ↔ P) → ((if not b then ok false else done) ≡ ok true) ↔ P
last_passed true p = (λ h. p.0 refl, λ h. refl)
last_passed false p = (λ h. cc, λ h. cc (p.1 h))

info_passed :
    {P : Type 0} (m : Outcome Bool) (rest : Outcome Bool)
    → ((rest ≡ ok true) ↔ P)
    → ((m >>= λ same. if not same then ok false else rest) ≡ ok true) ↔ ((m ≡ ok true) × P)
info_passed (ok true) rest p = (λ h. (refl, p.0 h), λ h. p.1 h.1)
info_passed (ok false) rest p = (λ h. cc, λ h. cc (h.0))
info_passed (err e) rest p = (λ h. cc, λ h. cc (h.0))
info_passed panic rest p = (λ h. cc, λ h. cc (h.0))

itself : {P : Type 0} → P ↔ P
itself = (λ h. h, λ h. h)

module _ {A : Type 0} ⦃a : Addresses A⦄ (laws : AddressLaws A) where
  pub data_equal_iff :
      (user user' : BcUserData A) (land land' : BcLandData A) (history history' : BcHistoryData A)
      → ((bc_user_equal user user' ≡ ok true) ↔ (
          (user.info.doc_type ≡ user'.info.doc_type)
          × ((user.owner ≡ user'.owner)
              × ((user.gold ≡ user'.gold)
                  × ((user.bankgold ≡ user'.bankgold)
                      × ((statistics_equal user.statistics user'.statistics ≡ true)))))))
        × ((bc_land_equal land land' ≡ ok true) ↔ (
            (DocInfo.equal land.info land'.info ≡ ok true)
            × ((land.address ≡ land'.address)
                × ((land.area ≡ land'.area)
                    × ((land.renter ≡ land'.renter)
                        × ((land.account ≡ land'.account)
                            × ((land.rentdate ≡ land'.rentdate)
                                × ((land.periodday ≡ land'.periodday)))))))))
        × ((bc_history_equal history history' ≡ ok true) ↔ (
            (DocInfo.equal history.info history'.info ≡ ok true)
            × ((history.name ≡ history'.name)
                × ((history.account ≡ history'.account)
                    × ((history.date ≡ history'.date)
                        × ((history.usage ≡ history'.usage)
                            × ((history.application ≡ history'.application))))))))
  unfolding bc_user_equal bc_land_equal bc_history_equal
  data_equal_iff user user' land land' history history' = (
    passed _ _ (eq_iff user.info.doc_type user'.info.doc_type) (
        passed _ _ (laws.equal_iff user.owner user'.owner) (
          passed _ _ (==_iff user.gold user'.gold)
            (passed _ _ (==_iff user.bankgold user'.bankgold) (last_passed _ itself)))),
    info_passed (DocInfo.equal land.info land'.info) _ (
        passed _ _ (bytes_eq_iff land.address land'.address) (
          passed _ _ (bytes_eq_iff land.area land'.area) (
            passed _ _ (bytes_eq_iff land.renter land'.renter) (
              passed _ _ (laws.equal_iff land.account land'.account) (
                passed _ _ (bytes_eq_iff land.rentdate land'.rentdate)
                  (last_passed _ (==_iff land.periodday land'.periodday))))))),
    info_passed (DocInfo.equal history.info history'.info) _ (
        passed _ _ (bytes_eq_iff history.name history'.name) (
          passed _ _ (laws.equal_iff history.account history'.account) (
            passed _ _ (bytes_eq_iff history.date history'.date) (
              passed _ _ (bytes_eq_iff history.usage history'.usage)
                (last_passed _ (bytes_eq_iff history.application history'.application)))))),
  )
