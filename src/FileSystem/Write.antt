-- ===== src/FileSystem/Write.antt =====
-- `WriteFile` and `WriteFileWithProgress` (file_system/file_system.go). A call returns the world it
-- leaves, also when it fails. The second one does not look at the error of its second `Set`.
pub mod Effects
pub mod Progress
pub mod Blocks
use sequoia.Prelude.{
  ℕ, zero, suc, ◌+◌, ◌==◌, if◌then◌else◌, Bool, true, false, List, [], ◌∷◌, ◌++◌, ◌≡◌, refl, Option,
  none, some, length, ◌⊎◌, inl, inr,
}
use sequoia.Prelude.Int.{ℤ, pos, eqb_ℤ, ◌+ℤ◌}
use sequoia.Prelude.Bytes.{Bytes, bytes_equal, codes}
use sequoia.Prelude.Bytes.Hex.{hex_encode}
use sequoia.FileSystem.Keys.{tree_key, cid_key}
use sequoia.FileSystem.Stores.{Badger, Ipfs, Merkle, World}
use sequoia.FileSystem.Tree.{
  Reader, Built, built, tree_failed, marshal_failed, build_tree, proof_type_ipfs_folder,
}

pub data WriteError : Type 0 where
  cannot_build merkle_mismatch cannot_seek cannot_add : WriteError
  cannot_set_tree cannot_set_cid cannot_commit : WriteError

-- The size and the CID, or an error.
pub data Written : Type 0 where
  wrote : ℕ → ℕ → Written
  write_failed : WriteError → Written

-- The steps of an upload that are reported (`types.UploadResponseV2`, api/types/responses.go).
pub record Tracker : Type 0 where
  pub merkle : Bytes
  pub owner : Bytes
  pub start : ℤ
  pub cid : Bytes
  pub progress : ℕ
  pub status : Bytes

module _ (b : Badger) (p : Ipfs) (m : Merkle) where
  open b use {Db, Txn}
  open p use {Blocks, Params}

  -- The data as blocks, unless it cannot be read or added: a folder node read from its JSON, or a file.
  -- Data that breaks off may leave some of its blocks.
  unfoldable pub add_data : ℤ → Option Bytes → Params → Blocks → Blocks × Option ℕ
  add_data proof_type none params blocks = (p.after_broken_add blocks, none)
  add_data proof_type (some content) params blocks =
      if eqb_ℤ proof_type proof_type_ipfs_folder
      then p.add_folder blocks content
      else p.add_file blocks content params

  -- The two entries as one transaction.
  put_cid : Option Txn → Bytes → Bytes → WriteError ⊎ Txn
  put_cid none k v = inl cannot_set_tree
  put_cid (some t) k v = elim (b.put t k v) [ none ↦ inl cannot_set_cid | some t' ↦ inr t' ]

  -- The same, where an error of the second entry is overwritten and the rest is committed.
  put_cid_loose : Option Txn → Bytes → Bytes → WriteError ⊎ Txn
  put_cid_loose none k v = inl cannot_set_tree
  put_cid_loose (some t) k v = elim (b.put t k v) [ none ↦ inr t | some t' ↦ inr t' ]

  commit_entries : WriteError ⊎ Txn → WriteError ⊎ Db
  commit_entries (inl e) = inl e
  commit_entries (inr t) = elim (b.commit t) [ none ↦ inl cannot_commit | some db ↦ inr db ]

  unfoldable pub put_entries : Db → Bytes → Bytes → Bytes → Bytes → WriteError ⊎ Db
  unfolding put_cid commit_entries
  put_entries db tk tree ck cid = commit_entries (put_cid (b.put (b.begin db) tk tree) ck cid)

  unfoldable pub put_entries_loose : Db → Bytes → Bytes → Bytes → Bytes → WriteError ⊎ Db
  unfolding put_cid_loose commit_entries
  put_entries_loose db tk tree ck cid =
      commit_entries (put_cid_loose (b.put (b.begin db) tk tree) ck cid)

  -- The world after the transaction.
  indexed : World Db Blocks → ℕ → ℕ → WriteError ⊎ Db → World Db Blocks × Written
  indexed w size cid (inl e) = (w, write_failed e)
  indexed w size cid (inr db) =
      (record w { db = db; file_count = w.file_count +ℤ pos 1 }, wrote size cid)

  stored :
      World Db Blocks
      → Bytes
      → Bytes
      → ℤ
      → Bytes
      → ℕ
      → Blocks × Option ℕ
      → World Db Blocks × Written
  unfolding indexed put_entries
  stored w merkle owner start tree size (blocks, none) =
      (record w { blocks = blocks }, write_failed cannot_add)
  stored w merkle owner start tree size (blocks, some cid) =
      indexed (record w { blocks = blocks }) size cid
        (put_entries w.db (tree_key merkle owner start) tree (cid_key merkle) (p.cid_string cid))

  checked :
      World Db Blocks
      → Reader
      → Bytes
      → Bytes
      → ℤ
      → ℤ
      → Params
      → Built m.Tree
      → World Db Blocks × Written
  unfolding stored add_data
  checked w r merkle owner start proof_type params tree_failed = (w, write_failed cannot_build)
  checked w r merkle owner start proof_type params marshal_failed = (w, write_failed cannot_build)
  checked w r merkle owner start proof_type params (built t tree size) =
      if bytes_equal (hex_encode merkle) (hex_encode (m.root t))
      then (if r.rewinds
          then stored w merkle owner start tree size (add_data proof_type r.whole params w.blocks)
          else (w, write_failed cannot_seek))
      else (w, write_failed merkle_mismatch)

  unfoldable pub write_file :
      World Db Blocks → Reader → Bytes → Bytes → ℤ → ℤ → Params → World Db Blocks × Written
  unfolding checked build_tree
  write_file w r merkle owner start proof_type params =
      checked w r merkle owner start proof_type params (build_tree m r.reads proof_type)

  -- The end of the transaction, with the tracker.
  indexed_with_progress :
      World Db Blocks → Tracker → ℕ → ℕ → WriteError ⊎ Db → World Db Blocks × Tracker × Written
  indexed_with_progress w tr size cid (inl e) = (w, tr, write_failed e)
  indexed_with_progress w tr size cid (inr db) = (
    record w { db = db; file_count = w.file_count +ℤ pos 1 },
    record tr { progress = 100; status = codes "done!" },
    wrote size cid,
  )

  stored_with_progress :
      World Db Blocks
      → Tracker
      → Bytes
      → Bytes
      → ℤ
      → Bytes
      → ℕ
      → Blocks × Option ℕ
      → World Db Blocks × Tracker × Written
  unfolding indexed_with_progress put_entries_loose
  stored_with_progress w tr merkle owner start tree size (blocks, none) =
      (record w { blocks = blocks }, tr, write_failed cannot_add)
  stored_with_progress w tr merkle owner start tree size (blocks, some cid) =
      indexed_with_progress (record w { blocks = blocks }) (record tr { progress = 90 }) size cid
        (put_entries_loose w.db (tree_key merkle owner start) tree (cid_key merkle)
          (p.cid_string cid))

  checked_with_progress :
      World Db Blocks
      → Tracker
      → Reader
      → Bytes
      → Bytes
      → ℤ
      → ℤ
      → Params
      → Built m.Tree
      → World Db Blocks × Tracker × Written
  unfolding stored_with_progress add_data
  checked_with_progress w tr r merkle owner start proof_type params tree_failed =
      (w, tr, write_failed cannot_build)
  checked_with_progress w tr r merkle owner start proof_type params marshal_failed =
      (w, tr, write_failed cannot_build)
  checked_with_progress w tr r merkle owner start proof_type params (built t tree size) =
      if bytes_equal (hex_encode merkle) (hex_encode (m.root t))
      then (if r.rewinds
          then stored_with_progress w (record tr { progress = 70 }) merkle owner start tree size
              (add_data proof_type r.whole params w.blocks)
          else (w, record tr { progress = 60 }, write_failed cannot_seek))
      else (w, tr, write_failed merkle_mismatch)

  unfoldable pub write_file_with_progress :
      World Db Blocks
      → Tracker
      → Reader
      → Bytes
      → Bytes
      → ℤ
      → ℤ
      → Params
      → World Db Blocks × Tracker × Written
  unfolding checked_with_progress build_tree
  write_file_with_progress w tr r merkle owner start proof_type params =
      checked_with_progress w tr r merkle owner start proof_type params
        (build_tree m r.reads proof_type)
