-- ===== src/Proofs/Generate/Valid.antt =====
-- A file that was written can be proved, chunk by chunk (proofs/proofs.go over
-- file_system/file_system.go).
use sequoia.Prelude.{
  ℕ, zero, suc, ◌+◌, ◌==◌, true, false, List, [], ◌∷◌, ◌≡◌, ◌≢◌, refl, ◌∙◌, ap, subst, Option, none,
  some, inl, inr, arith, length, get_elem?, All, Option-cases,
}
use sequoia.Prelude.Int.{ℤ, pos}
use sequoia.Prelude.Bytes.{Bytes}
use sequoia.FileSystem.Keys.{tree_key, cid_key}
use sequoia.FileSystem.Stores.{Badger, Ipfs, Merkle, MerkleLaws, IsLeaf, World}
use sequoia.FileSystem.Tree.{
  built, leaf, read_leaves, build_tree, from_leaves, exported, is_blake3, Reader,
}
use sequoia.FileSystem.Read.{get_file_tree_by_chunk_found, load_chunk}
use sequoia.FileSystem.Write.Effects.{HasEntries}
use sequoia.Proofs.Generate.{
  gen_proof, prove_chunk, if_valid, marshalled, generate_merkle_proof, verify, verified,
}

module _ (m : Merkle) where
  -- Every read before the end of the data gives something.
  abbrev pub AllNonempty : List Bytes → Type 0
  AllNonempty = All (λ (r : Bytes). length r ≢ 0)

  leaf-IsLeaf :
      (proof_type : ℤ) (k i n : ℕ) (reads : List Bytes) (chunk : Bytes)
      → AllNonempty reads
      → get_elem? reads i ≡ some chunk
      → i + k ≡ n
      → IsLeaf (leaf m proof_type (pos n) chunk) (read_leaves m proof_type k reads).0
  unfolding read_leaves
  leaf-IsLeaf proof_type k i n [] chunk ne e at = cc
  leaf-IsLeaf proof_type k zero n (r ∷ rs) chunk ne e at =
      let some_bytes : (length r == 0) ≡ false = ground arith in
      let same : r ≡ chunk = ground arith in
      let here : n ≡ k = omega arith in rw (some_bytes, here, same) (inl refl)
  leaf-IsLeaf proof_type k (suc i) n (r ∷ rs) chunk ne e at =
      let some_bytes : (length r == 0) ≡ false = ground arith in
      let next : i + suc k ≡ n = omega arith in
      let later = leaf-IsLeaf proof_type (suc k) i n rs chunk ne.1 e next in
      rw some_bytes (inr later)

  built_from :
      (o : Option m.Tree) (size size' : ℕ) (t : m.Tree) (json : Bytes)
      → from_leaves m o size ≡ built t json size'
      → (o ≡ some t) × (m.marshal_tree t ≡ some json)
  unfolding from_leaves exported
  built_from none size size' t json e = cc
  built_from (some u) size size' t json e = elim (Option-cases (m.marshal_tree u)) [
    | inl fails ↦ let k = rw (fails, exported) at e in cc
    | inr (j, w) ↦
        let k = rw (w, exported) at e in
        let same : u ≡ t = cc in
        let text : j ≡ json = cc in (ap some same, rw (← same) (w ∙ ap some text))
  ]

  build_tree_built :
      (reads : List Bytes) (proof_type : ℤ) (t : m.Tree) (json : Bytes) (size : ℕ)
      → build_tree m reads proof_type ≡ built t json size
      → (m.new_tree (read_leaves m proof_type 0 reads).0 (is_blake3 proof_type) ≡ some t)
        × (m.marshal_tree t ≡ some json)
  unfolding build_tree
  build_tree_built reads proof_type t json size e =
      built_from (m.new_tree (read_leaves m proof_type 0 reads).0 (is_blake3 proof_type)) _ size t
        json e

module _ (b : Badger) (p : Ipfs) (m : Merkle) where
  if_valid-proved :
      (t : m.Tree) (index : ℤ) (chunk : Bytes) (proof_type : ℤ) (pr : m.Proof)
      → m.generate_proof t (leaf m proof_type index chunk) ≡ some pr
      → m.verify_proof (leaf m proof_type index chunk) pr (m.root t) (is_blake3 proof_type)
        ≡ some true
      → if_valid b p m chunk (generate_merkle_proof b p m t index chunk proof_type)
        ≡ marshalled b p m chunk (m.marshal_proof pr)
  unfolding generate_merkle_proof if_valid verify verified
  if_valid-proved t index chunk proof_type pr gen ver = rw (gen, ver) refl

module _ (b : Badger) (p : Ipfs) (m : Merkle) (laws : MerkleLaws m) where
  -- After a successful write, whose reads gave something each, the prover can prove every chunk
  -- that was read: if the block store gives back the chunk with that index, then the tree is found
  -- and read back, the Merkle proof of the chunk is generated and verifies, and `GenProof` returns
  -- it with the chunk, unless the proof itself cannot be marshalled.
  pub gen_proof_valid :
      (db : b.Db) (w : World b.Db p.Blocks) (r : Reader) (merkle owner : Bytes) (start : ℤ)
      (proof_type chunk_size : ℤ) (t : m.Tree) (json : Bytes) (size cid : ℕ) (i : ℕ) (chunk : Bytes)
      → build_tree m r.reads proof_type ≡ built t json size
      → HasEntries b p m db w.db
          (tree_key merkle owner start)
          json
          (cid_key merkle)
          (p.cid_string cid)
      → AllNonempty m r.reads
      → get_elem? r.reads i ≡ some chunk
      → load_chunk b p m w.blocks proof_type cid (pos i) chunk_size ≡ some chunk
      → (pr : m.Proof) × (m.generate_proof t (leaf m proof_type (pos i) chunk) ≡ some pr)
        × (m.verify_proof (leaf m proof_type (pos i) chunk) pr (m.root t) (is_blake3 proof_type)
            ≡ some true)
        × (gen_proof b p m w merkle owner start (pos i) chunk_size proof_type
            ≡ marshalled b p m chunk (m.marshal_proof pr))
  unfolding gen_proof
  gen_proof_valid db w r merkle owner start proof_type chunk_size t json size cid i chunk e entries
        ne at_i loads =
      let (grown, text) = build_tree_built m r.reads proof_type t json size e in
      let plain : i + 0 ≡ i = omega arith in
      let is_leaf =
        subst
          (λ (k : ℕ).
            IsLeaf (leaf m proof_type (pos k) chunk) (read_leaves m proof_type 0 r.reads).0)
          plain (leaf-IsLeaf m proof_type 0 i (i + 0) r.reads chunk ne at_i refl) in
      let (pr, gen, ver) = laws.proves _ (is_blake3 proof_type) t _ grown is_leaf in
      let read =
        get_file_tree_by_chunk_found b p m w merkle owner start (pos i) chunk_size proof_type json t
          cid chunk entries.tree_entry (laws.reads_back t json text) entries.cid_entry loads in
      (
        pr,
        gen,
        ver,
        ap (prove_chunk b p m (pos i) proof_type) read
            ∙ if_valid-proved b p m t (pos i) chunk proof_type pr gen ver,
      )
