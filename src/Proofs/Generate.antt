-- ===== src/Proofs/Generate.antt =====
-- `GenerateMerkleProof`, `GenProof` and `GenerateProof` (proofs/proofs.go). The queries to the chain
-- are parameters.
pub mod Valid
pub mod Fresh
use sequoia.Prelude.{
  ℕ, ◌==◌, if◌then◌else◌, Bool, true, false, not, ◌&&◌, List, [], ◌∷◌, ◌≡◌, Option, none, some, ◌⊎◌,
  inl, inr,
}
use sequoia.Prelude.Int.{ℤ, pos, ◌+ℤ◌, eqb_ℤ}
use sequoia.Prelude.Bytes.{Bytes}
use sequoia.Seeker.{wrap_i64}
use sequoia.FileSystem.Stores.{Badger, Ipfs, Merkle, World}
use sequoia.FileSystem.Tree.{leaf, is_blake3}
use sequoia.FileSystem.Read.{ReadError, get_file_tree_by_chunk}

-- `query_failed` has the code of a gRPC status.
pub data ProofError : Type 0 where
  query_failed : ℕ → ProofError
  chunk_failed : ReadError → ProofError
  no_merkle_proof not_verified tree_not_valid not_marshalled : ProofError

-- `types.UnifiedFile` as the prover reads it; `ProvenThisBlock` is the chain's own.
pub record ChainFile : Type 0 where
  pub max_proofs : ℤ
  pub proof_count : ℤ
  pub contains_prover : Bool
  pub proof_type : ℤ
  pub proven_this_block : ℤ → ℤ → Bool

-- `types.FileProof`, the fields that are read.
pub record FileProof : Type 0 where
  pub last_proven : ℤ
  pub chunk_to_prove : ℤ

-- The answers to the two queries.
pub record Queries : Type 0 where
  pub file : ℕ ⊎ ChainFile
  pub proof : Option FileProof

abbrev pub fresh_proof : FileProof
fresh_proof = record { last_proven = pos 0; chunk_to_prove = pos 0 }

-- A proof with its item and index; nothing to do; or an error.
pub data Generated : Type 0 where
  generated : Bytes → Bytes → ℤ → Generated
  nothing : Generated
  gen_failed : ProofError → Generated

-- The height and the blocks that have passed, as an int64.
unfoldable pub height_after : ℤ → ℤ → ℤ
height_after block_height elapsed = wrap_i64 (block_height +ℤ elapsed)

module _ (b : Badger) (p : Ipfs) (m : Merkle) where
  open b use {Db}
  open p use {Blocks}

  unfoldable pub verified : m.Proof → Option Bool → ProofError ⊎ (Bool × m.Proof)
  verified pr none = inl not_verified
  verified pr (some valid) = inr (valid, pr)

  unfoldable pub verify : Bytes → Bytes → Bool → Option m.Proof → ProofError ⊎ (Bool × m.Proof)
  unfolding verified
  verify l root blake none = inl no_merkle_proof
  verify l root blake (some pr) = verified pr (m.verify_proof l pr root blake)

  unfoldable pub generate_merkle_proof : m.Tree → ℤ → Bytes → ℤ → ProofError ⊎ (Bool × m.Proof)
  unfolding leaf verify
  generate_merkle_proof tree index item proof_type =
      let h = leaf m proof_type index item in
      verify h (m.root tree) (is_blake3 proof_type) (m.generate_proof tree h)

  unfoldable pub marshalled : Bytes → Option Bytes → ProofError ⊎ (Bytes × Bytes)
  marshalled chunk none = inl not_marshalled
  marshalled chunk (some j) = inr (j, chunk)

  unfoldable pub if_valid : Bytes → ProofError ⊎ (Bool × m.Proof) → ProofError ⊎ (Bytes × Bytes)
  unfolding marshalled
  if_valid chunk (inl e) = inl e
  if_valid chunk (inr (false, pr)) = inl tree_not_valid
  if_valid chunk (inr (true, pr)) = marshalled chunk (m.marshal_proof pr)

  unfoldable pub prove_chunk : ℤ → ℤ → ReadError ⊎ (m.Tree × Bytes) → ProofError ⊎ (Bytes × Bytes)
  unfolding generate_merkle_proof if_valid
  prove_chunk block proof_type (inl e) = inl (chunk_failed e)
  prove_chunk block proof_type (inr (tree, chunk)) =
      if_valid chunk (generate_merkle_proof tree block chunk proof_type)

  -- The marshalled proof and the chunk.
  unfoldable pub gen_proof :
      World Db Blocks → Bytes → Bytes → ℤ → ℤ → ℤ → ℤ → ProofError ⊎ (Bytes × Bytes)
  unfolding prove_chunk get_file_tree_by_chunk
  gen_proof w merkle owner start block chunk_size proof_type =
      prove_chunk block proof_type
        (get_file_tree_by_chunk b p m w merkle owner start block chunk_size proof_type)

  as_generated : ℤ → ProofError ⊎ (Bytes × Bytes) → Generated
  as_generated index (inl e) = gen_failed e
  as_generated index (inr (proof, item)) = generated proof item index

  -- The proof model, when the file is ours.
  found_or_fresh : Option FileProof → FileProof
  found_or_fresh none = fresh_proof
  found_or_fresh (some pr) = pr

  -- The height is the one at the start of the cycle, moved on by a block for each six seconds.
  unless_proven : World Db Blocks → Bytes → Bytes → ℤ → ℤ → ℤ → ChainFile → FileProof → Generated
  unfolding gen_proof as_generated
  unless_proven w merkle owner start height chunk_size file pr =
      if file.proven_this_block height pr.last_proven
      then nothing
      else as_generated pr.chunk_to_prove
          (gen_proof w merkle owner start pr.chunk_to_prove chunk_size file.proof_type)

  for_file : World Db Blocks → Bytes → Bytes → ℤ → ℤ → ℤ → ChainFile → Option FileProof → Generated
  unfolding unless_proven found_or_fresh
  for_file w merkle owner start height chunk_size file proof =
      if file.contains_prover
      then unless_proven w merkle owner start height chunk_size file (found_or_fresh proof)
      else if eqb_ℤ file.proof_count file.max_proofs
      then nothing
      else unless_proven w merkle owner start height chunk_size file fresh_proof

  by_query :
      World Db Blocks → Bytes → Bytes → ℤ → ℤ → ℤ → ℕ ⊎ ChainFile → Option FileProof → Generated
  unfolding for_file
  by_query w merkle owner start height chunk_size (inl code) proof = gen_failed (query_failed code)
  by_query w merkle owner start height chunk_size (inr file) proof =
      for_file w merkle owner start height chunk_size file proof

  -- `elapsed` is how many blocks of six seconds have passed since the cycle began.
  unfoldable pub generate_proof_for :
      Queries
      → World Db Blocks
      → Bytes
      → Bytes
      → ℤ
      → (block_height elapsed chunk_size : ℤ) → Generated
  unfolding by_query
  generate_proof_for qs w merkle owner start block_height elapsed chunk_size =
      by_query w merkle owner start (height_after block_height elapsed) chunk_size qs.file qs.proof
