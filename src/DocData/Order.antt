-- ===== src/DocData/Order.antt =====
-- The hash of document data does not depend on the order in which its signers or candidates come.
use mathlib.Core.List.{Permᴰ}
use mitum_data_blocksign.Prelude.{
  List, ◌≡◌, Distinct, sort_slice_perm_invariant, map-sort_slice_perm_invariant,
}
use mitum_data_blocksign.Mitum.{Util, Addresses}
use mitum_data_blocksign.DocParts.{DocSign, VotingCandidate, candidate_bytes}
use mitum_data_blocksign.DocData.{
  BsDocData, BcVotingData, bs_doc, bc_voting, bs_doc_bytes, bc_voting_bytes, bytes, generate_hash,
}

module _ {A : Type 0} ⦃a : Addresses A⦄ ⦃u : Util⦄ where
  -- Signers with distinct addresses may come in any order: the hash of the document is the same.
  generate_hash-signers_perm :
      (d : BsDocData A) (signers : List (DocSign A))
      → Permᴰ d.signers signers
      → Distinct (λ s. a.address_bytes s.address) d.signers
      → generate_hash (bs_doc d) ≡ generate_hash (bs_doc (record d { signers = signers }))
  unfolding generate_hash bytes bs_doc_bytes
  generate_hash-signers_perm d signers p distinct =
      rw (sort_slice_perm_invariant (λ s. a.address_bytes s.address) p distinct)

  -- The candidates of a vote may come in any order: the hash of the document is the same.
  generate_hash-candidates_perm :
      (d : BcVotingData A) (candidates : List (VotingCandidate A))
      → Permᴰ d.candidates candidates
      → generate_hash (bc_voting d)
        ≡ generate_hash (bc_voting (record d { candidates = candidates }))
  unfolding generate_hash bytes bc_voting_bytes
  generate_hash-candidates_perm d candidates p =
      rw (map-sort_slice_perm_invariant candidate_bytes p)

  -- Signers with distinct addresses may come in any order, and so may the candidates of a vote: the
  -- hash of the document is the same.
  pub generate_hash-perm :
      (d : BsDocData A) (signers : List (DocSign A)) (v : BcVotingData A)
      (candidates : List (VotingCandidate A))
      → Permᴰ d.signers signers
      → Distinct (λ s. a.address_bytes s.address) d.signers
      → Permᴰ v.candidates candidates
      → (generate_hash (bs_doc d) ≡ generate_hash (bs_doc (record d { signers = signers })))
        × (generate_hash (bc_voting v)
            ≡ generate_hash (bc_voting (record v { candidates = candidates })))
  generate_hash-perm d signers v candidates p distinct q = (
    generate_hash-signers_perm d signers p distinct,
    generate_hash-candidates_perm v candidates q,
  )
