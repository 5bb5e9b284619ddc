-- ===== src/FileSystem/Write/Progress.antt =====
-- `WriteFileWithProgress` against `WriteFile` (file_system/file_system.go).
use sequoia.Prelude.{ℕ, ◌<◌, ◌≡◌, refl, ap, Option, none, some, ◌⊎◌, inl, inr, arith, Bool-cases}
use sequoia.Prelude.Int.{ℤ}
use sequoia.Prelude.Bytes.{Bytes, bytes_equal, codes}
use sequoia.Prelude.Bytes.Hex.{hex_encode}
use sequoia.FileSystem.Keys.{tree_key, cid_key}
use sequoia.FileSystem.Stores.{Badger, Ipfs, Merkle, World, NeverFails}
use sequoia.FileSystem.Tree.{Reader, Built, built, tree_failed, marshal_failed, build_tree}
use sequoia.FileSystem.Write.{
  WriteError, Written, wrote, write_failed, Tracker, put_entries, put_entries_loose, put_cid,
  put_cid_loose, commit_entries, indexed, stored, checked, write_file, indexed_with_progress,
  stored_with_progress, checked_with_progress, write_file_with_progress,
}

-- The tracker says how it went.
abbrev pub Tells : Tracker → Tracker → Written → Type 0
Tells tr tr' (wrote size cid) = (tr'.progress ≡ 100) × (tr'.status ≡ codes "done!")
Tells tr tr' (write_failed e) = (tr'.progress < 100) × (tr'.status ≡ tr.status)

module _ (b : Badger) (p : Ipfs) (m : Merkle) (f : NeverFails b) where
  open b use {Db, Txn}
  open p use {Blocks, Params}

  put_cid_same : (o : Option Txn) (k v : Bytes) → put_cid_loose b p m o k v ≡ put_cid b p m o k v
  unfolding put_cid put_cid_loose
  put_cid_same none k v = refl
  put_cid_same (some t) k v = let (t', e) = f.puts t k v in rw (e, put_cid_loose, put_cid)

  put_entries_same :
      (db : Db) (tk tree ck cid : Bytes)
      → put_entries_loose b p m db tk tree ck cid ≡ put_entries b p m db tk tree ck cid
  unfolding put_entries put_entries_loose
  put_entries_same db tk tree ck cid =
      ap (commit_entries b p m) (put_cid_same (b.put (b.begin db) tk tree) ck cid)

  abbrev Agrees : Tracker → World Db Blocks × Tracker × Written → World Db Blocks × Written → Type 0
  Agrees tr (w, tr', res) (v, res') = (w ≡ v) × (res ≡ res') × Tells tr tr' res

  module _ (w : World Db Blocks) (tr : Tracker) (early : tr.progress < 100) where
    indexed-Agrees :
        (v : World Db Blocks) (tr' : Tracker) (size cid : ℕ) (o : WriteError ⊎ Db)
        → tr'.progress < 100
        → tr'.status ≡ tr.status
        → Agrees tr (indexed_with_progress b p m v tr' size cid o) (indexed b p m v size cid o)
    unfolding indexed indexed_with_progress
    indexed-Agrees v tr' size cid (inl e) h k = (refl, refl, (h, k))
    indexed-Agrees v tr' size cid (inr db) h k = (refl, refl, (refl, refl))

    stored-Agrees :
        (merkle owner : Bytes) (start : ℤ) (tree : Bytes) (size : ℕ) (o : Blocks × Option ℕ)
        → Agrees tr
            (stored_with_progress b p m w
              (record tr { progress = 70 })
              merkle
              owner
              start
              tree
              size
              o)
            (stored b p m w merkle owner start tree size o)
    unfolding stored stored_with_progress
    stored-Agrees merkle owner start tree size (blocks, none) = (refl, refl, (omega arith, refl))
    stored-Agrees merkle owner start tree size (blocks, some cid) =
        rw
          (put_entries_same w.db (tree_key merkle owner start) tree (cid_key merkle)
            (p.cid_string cid))
          (indexed-Agrees _ (record tr { progress = 90 }) size cid _ (omega arith) refl)

    checked-Agrees :
        (r : Reader) (merkle owner : Bytes) (start proof_type : ℤ) (params : Params)
        (o : Built m.Tree)
        → Agrees tr
            (checked_with_progress b p m w tr r merkle owner start proof_type params o)
            (checked b p m w r merkle owner start proof_type params o)
    unfolding checked checked_with_progress
    checked-Agrees r merkle owner start proof_type params tree_failed = (refl, refl, (early, refl))
    checked-Agrees r merkle owner start proof_type params marshal_failed =
        (refl, refl, (early, refl))
    checked-Agrees r merkle owner start proof_type params (built t tree size) =
        elim (Bool-cases (bytes_equal (hex_encode merkle) (hex_encode (m.root t)))) [
          | inr differs ↦ simp differs (refl, refl, (early, refl))
          | inl same ↦ elim (Bool-cases r.rewinds) [
            | inr stuck ↦ simp (same, stuck) (refl, refl, (omega arith, refl))
            | inl ok ↦ simp (same, ok) (stored-Agrees merkle owner start tree size _)
          ]
        ]

    -- Over a database whose writes succeed, the two ways to write a file leave the same world and
    -- have the same result; the tracker, which starts below 100, is at 100 and "done!" exactly on
    -- success, and keeps its status on an error.
    pub write_file_with_progress_agrees :
        (r : Reader) (merkle owner : Bytes) (start proof_type : ℤ) (params : Params)
        → let (w', tr', res) =
            write_file_with_progress b p m w tr r merkle owner start proof_type params in
          ((w', res) ≡ write_file b p m w r merkle owner start proof_type params) × Tells tr tr' res
    unfolding write_file write_file_with_progress
    write_file_with_progress_agrees r merkle owner start proof_type params =
        let (a, c, t) =
          checked-Agrees r merkle owner start proof_type params (build_tree m r.reads proof_type) in
        (λ i. (a i, c i), t)
