-- ===== src/FileSystem/Write/Blocks.antt =====
-- The blocks that `WriteFile` (file_system/file_system.go) leaves behind.
use sequoia.Prelude.{ℕ, ◌≡◌, ap, Option, none, some, ◌⊎◌, inl, inr, Bool-cases}
use sequoia.Prelude.Int.{ℤ}
use sequoia.Prelude.Bytes.{Bytes, bytes_equal}
use sequoia.Prelude.Bytes.Hex.{hex_encode}
use sequoia.FileSystem.Keys.{tree_key, cid_key}
use sequoia.FileSystem.Stores.{Badger, Ipfs, Merkle, World}
use sequoia.FileSystem.Tree.{Reader, Built, built, tree_failed, marshal_failed, build_tree}
use sequoia.FileSystem.Write.{
  WriteError, Written, wrote, write_failed, indexed, stored, checked, write_file, add_data,
  put_entries,
}

module _ (b : Badger) (p : Ipfs) (m : Merkle) where
  open b use {Db}
  open p use {Blocks, Params}

  failed_not_wrote :
      (w w' : World Db Blocks) (e : WriteError) (size cid : ℕ)
      → ◌≡◌ {A = World Db Blocks × Written} (w, write_failed e) (w', wrote size cid)
      → ⊥
  failed_not_wrote w w' e size cid h =
      let k : write_failed e ≡ wrote size cid = ap (λ x. x.1) h in cc

  indexed_blocks :
      (v w' : World Db Blocks) (n c size cid : ℕ) (o : WriteError ⊎ Db)
      → indexed b p m v n c o ≡ (w', wrote size cid)
      → ◌≡◌ {A = Blocks × Option ℕ} (v.blocks, some c) (w'.blocks, some cid)
  unfolding indexed
  indexed_blocks v w' n c size cid (inl e) h = absurd (failed_not_wrote _ _ _ _ _ h)
  indexed_blocks v w' n c size cid (inr db) h =
      let k : wrote n c ≡ wrote size cid = ap (λ x. x.1) h in
      let c≡ : c ≡ cid = cc in λ i. ((ap (λ x. x.0.blocks) h) i, some (c≡ i))

  module _ (w w' : World Db Blocks) (r : Reader) (merkle owner : Bytes) (start proof_type : ℤ)
      (params : Params) (size cid : ℕ) where
    stored_blocks :
        (json : Bytes) (n : ℕ) (o : Blocks × Option ℕ)
        → stored b p m w merkle owner start json n o ≡ (w', wrote size cid)
        → o ≡ (w'.blocks, some cid)
    unfolding stored
    stored_blocks json n (blocks, none) h = absurd (failed_not_wrote _ _ _ _ _ h)
    stored_blocks json n (blocks, some c) h =
        indexed_blocks (record w { blocks = blocks }) w' n c size cid
          (put_entries b p m w.db (tree_key merkle owner start) json (cid_key merkle)
            (p.cid_string c))
          h

    checked_blocks :
        (o : Built m.Tree)
        → checked b p m w r merkle owner start proof_type params o ≡ (w', wrote size cid)
        → add_data b p m proof_type r.whole params w.blocks ≡ (w'.blocks, some cid)
    unfolding checked
    checked_blocks tree_failed h = absurd (failed_not_wrote _ _ _ _ _ h)
    checked_blocks marshal_failed h = absurd (failed_not_wrote _ _ _ _ _ h)
    checked_blocks (built tree json n) h =
        elim (Bool-cases (bytes_equal (hex_encode merkle) (hex_encode (m.root tree)))) [
          | inr differs ↦ absurd (failed_not_wrote _ _ _ _ _ (simp differs at h))
          | inl same ↦ elim (Bool-cases r.rewinds) [
            | inr stuck ↦ absurd (failed_not_wrote _ _ _ _ _ (simp (same, stuck) at h))
            | inl ok ↦ stored_blocks json n _ (simp (same, ok) at h)
          ]
        ]

    -- The blocks after a write that succeeds are those that adding the data has made.
    pub write_file_blocks :
        write_file b p m w r merkle owner start proof_type params ≡ (w', wrote size cid)
        → add_data b p m proof_type r.whole params w.blocks ≡ (w'.blocks, some cid)
    unfolding write_file
    write_file_blocks h = checked_blocks (build_tree m r.reads proof_type) h
