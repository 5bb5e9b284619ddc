-- ===== src/Proofs/Generate/Fresh.antt =====
-- The first proof of a file (`GenerateProof` of proofs/proofs.go).
use sequoia.Prelude.{◌≡◌, ap, ◌∙◌, false, inr}
use sequoia.Prelude.Int.{ℤ, pos, eqb_ℤ}
use sequoia.Prelude.Bytes.{Bytes}
use sequoia.FileSystem.Stores.{Badger, Ipfs, Merkle, World}
use sequoia.Proofs.Generate.{
  Queries, ChainFile, generated, gen_proof, generate_proof_for, height_after, by_query, for_file,
  unless_proven, as_generated,
}

-- The chain's file has room, the provider is not yet one of its provers, and nothing was proven.
pub record IsOpen (qs : Queries) (file : ChainFile) (height : ℤ) : Type 0 where
  pub there : qs.file ≡ inr file
  pub not_prover : file.contains_prover ≡ false
  pub room : eqb_ℤ file.proof_count file.max_proofs ≡ false
  pub unproven : file.proven_this_block height (pos 0) ≡ false

module _ (b : Badger) (p : Ipfs) (m : Merkle) where
  -- Then the first chunk is proved.
  pub generate_proof_for-open :
      (qs : Queries) (w : World b.Db p.Blocks) (merkle owner : Bytes)
      (start block_height elapsed chunk_size : ℤ) (file : ChainFile) (proof item : Bytes)
      → IsOpen qs file (height_after block_height elapsed)
      → gen_proof b p m w merkle owner start (pos 0) chunk_size file.proof_type ≡ inr (proof, item)
      → generate_proof_for b p m qs w merkle owner start block_height elapsed chunk_size
        ≡ generated proof item (pos 0)
  unfolding generate_proof_for by_query for_file unless_proven
  generate_proof_for-open qs w merkle owner start block_height elapsed chunk_size file proof item o
        e =
      ap
        (λ q.
          by_query b p m w merkle owner start (height_after block_height elapsed) chunk_size q
            qs.proof)
        o.there
      ∙ simp (o.not_prover, o.room, o.unproven) (ap (as_generated b p m (pos 0)) e)
