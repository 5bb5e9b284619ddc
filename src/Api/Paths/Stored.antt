-- ===== src/Api/Paths/Stored.antt =====
-- What is served of a file that was written: `WriteFile`, then `GetFileData` and `getMerkleData`
-- (file_system/file_system.go, api/file_handler.go).
use sequoia.Prelude.{ℕ, false, ◌≡◌, refl, ap, subst, ◌∙◌, some, inr}
use sequoia.Prelude.Int.{ℤ, eqb_ℤ}
use sequoia.Prelude.Bytes.{Bytes}
use sequoia.FileSystem.Keys.{cid_key}
use sequoia.FileSystem.Stores.{Badger, Ipfs, Merkle, World, found}
use sequoia.FileSystem.Tree.{Reader, proof_type_ipfs_folder}
use sequoia.FileSystem.Write.{Written, wrote, write_failed, write_file, add_data}
use sequoia.FileSystem.Write.Effects.{WriteResult, success, failure, write_file-WriteResult}
use sequoia.FileSystem.Write.Blocks.{write_file_blocks}
use sequoia.Api.Paths.{
  Gateway, opened, open_cid, with_cid, by_cid, get_file_data, or_network, get_merkle_data,
}

module _ (b : Badger) (p : Ipfs) (m : Merkle) (g : Gateway p.Blocks) where
  open b use {Db}
  open p use {Blocks, Params}

  -- A file that was added to the peer can be got from it by its CID.
  pub record Returns : Type 0 where
    pub returns :
        (blocks blocks' : Blocks) (content : Bytes) (params : Params) (c : ℕ)
        → p.add_file blocks content params ≡ (blocks', some c)
        → g.get_file blocks' c ≡ opened content

  wrote_cid :
      (w w' : World Db Blocks) (r : Reader) (merkle owner : Bytes) (start proof_type : ℤ)
      (res : Written) (size cid : ℕ)
      → WriteResult b p m w r merkle owner start proof_type w' res
      → res ≡ wrote size cid
      → b.get (b.begin w'.db) (cid_key merkle) ≡ found (p.cid_string cid)
  wrote_cid w w' r merkle owner start proof_type (wrote n c) size cid (success d h e k) same =
      let c≡ : c ≡ cid = cc in e.cid_entry ∙ ap (λ x. found (p.cid_string x)) c≡
  wrote_cid w w' r merkle owner start proof_type (write_failed err) size cid (failure d k) same = cc

  served_by_cid :
      (w : World Db Blocks) (merkle content : Bytes) (cid : ℕ)
      → b.get (b.begin w.db) (cid_key merkle) ≡ found (p.cid_string cid)
      → g.get_file w.blocks cid ≡ opened content
      → get_file_data b p g w merkle ≡ inr content
  unfolding get_file_data by_cid with_cid open_cid
  served_by_cid w merkle content cid entry got = rw (entry, p.decode_cid-cid_string cid, got) refl

  -- Where the block store gives back what was added to it: a file that is no folder, and was written, is
  -- what is served under its Merkle root in the state that the write leaves, without a question to the
  -- network.
  pub written_is_served :
      (law : Returns) (w w' : World Db Blocks) (r : Reader) (content : Bytes) (merkle owner : Bytes)
      (start proof_type : ℤ) (params : Params) (size cid : ℕ)
      → r.whole ≡ some content
      → eqb_ℤ proof_type proof_type_ipfs_folder ≡ false
      → write_file b p m w r merkle owner start proof_type params ≡ (w', wrote size cid)
      → (get_file_data b p g w' merkle ≡ inr content)
        × ((name : Bytes) → get_merkle_data b p g w' merkle name ≡ inr content)
  unfolding get_merkle_data add_data or_network
  written_is_served law w w' r content merkle owner start proof_type params size cid all plain e =
      let entry =
        wrote_cid w _ r merkle owner start proof_type _ size cid
          (write_file-WriteResult b p m w r merkle owner start proof_type params)
          (ap (λ x. x.1) e) in
      let added = write_file_blocks b p m w w' r merkle owner start proof_type params size cid e in
      let got = law.returns w.blocks w'.blocks content params cid (rw (all, plain) at added) in
      let here =
        served_by_cid w' merkle content cid
          (subst (λ x. b.get (b.begin x.0.db) (cid_key merkle) ≡ found (p.cid_string cid)) e entry)
          got in
      (here, λ name. ap (or_network b p g merkle name) here)
