-- ===== src/FileSystem/Delete/Shared.antt =====
-- What `DeleteFile` (file_system/file_system.go) does to the entries of the database.
use sequoia.Prelude.{
  ℕ, if◌then◌else◌, Bool, true, false, not, ◌&&◌, List, [], ◌≡◌, ◌≢◌, refl, ◌∙◌, ap, Option, none,
  some, arith, inl,
}
use sequoia.Prelude.Int.{ℤ}
use sequoia.Prelude.Bytes.{Bytes, bytes_equal, bytes_equal_refl}
use sequoia.FileSystem.Keys.{tree_key, cid_key, tree_key-ne-cid_key}
use sequoia.FileSystem.Stores.{Badger, Ipfs, Merkle, World, NeverFails, Fetch, found, not_found}
use sequoia.FileSystem.Read
use sequoia.FileSystem.Read.{check_tree, get_cid_from_merkle, get_file_tree_by_chunk, cid_not_found}
use sequoia.FileSystem.Write.Effects.{bytes_apart}
use sequoia.FileSystem.Delete.{
  delete_key, committed_or, delete_data, remove_contract, delete_file, remove_decoded, is_valid,
  delete_if_last,
}

module _ (b : Badger) (p : Ipfs) (order : List ℕ → List ℕ) (fuel : ℕ) (f : NeverFails b) where
  open b use {Db}
  open p use {Blocks}

  abbrev look : Db → Bytes → Fetch
  look db k = b.get (b.begin db) k

  get-delete_key :
      (db : Db) (k j : Bytes)
      → look (delete_key b p order fuel db k) j ≡ (if bytes_equal j k then not_found else look db j)
  unfolding delete_key
  get-delete_key db k j =
      let (t, d) = f.deletes (b.begin db) k in
      let (db', c) = f.commits t in
      rw (d, committed_or, c) (b.get-commit t db' j c ∙ b.get-delete (b.begin db) t k j d)

  -- The data part of the deletion touches one key of the database.
  remove_decoded_db :
      (w : World Db Blocks) (c : Option ℕ) → (remove_decoded b p order fuel w c).0.db ≡ w.db
  unfolding remove_decoded
  remove_decoded_db w none = refl
  remove_decoded_db w (some c) = refl

  get-delete_data :
      (w : World Db Blocks) (merkle j : Bytes)
      → look (delete_data b p order fuel w merkle).0.db j
        ≡ (if bytes_equal j (cid_key merkle) then not_found else look w.db j)
  unfolding delete_data
  get-delete_data w merkle j =
      ap (λ db. look db j) (remove_decoded_db _ _) ∙ get-delete_key w.db (cid_key merkle) j

  look-delete_if_last :
      (any : Bool) (w : World Db Blocks) (merkle j : Bytes)
      → look (delete_if_last b p order fuel any w merkle).0.db j
        ≡ (if not any && bytes_equal j (cid_key merkle) then not_found else look w.db j)
  unfolding delete_if_last
  look-delete_if_last true w merkle j = refl
  look-delete_if_last false w merkle j = get-delete_data w merkle j

  -- The entry `j` after the deletion.
  get-delete_file :
      (w : World Db Blocks) (merkle owner : Bytes) (start : ℤ) (j : Bytes)
      → let db = delete_key b p order fuel w.db (tree_key merkle owner start) in
        let any = is_valid b p order fuel (b.iterate db merkle) in
        look (delete_file b p order fuel w merkle owner start).0.db j ≡ (
          if not any && bytes_equal j (cid_key merkle)
          then not_found
          else if bytes_equal j (tree_key merkle owner start)
          then not_found
          else look w.db j)
  unfolding delete_file remove_contract
  get-delete_file w merkle owner start j =
      look-delete_if_last _ _ merkle j ∙ rw (get-delete_key w.db (tree_key merkle owner start) j)

  pub delete_file_missing :
      (m : Merkle) (w : World Db Blocks) (merkle owner : Bytes) (start : ℤ)
      → check_tree b p m (delete_file b p order fuel w merkle owner start).0 merkle owner start
        ≡ some false
  unfolding check_tree
  delete_file_missing m w merkle owner start =
      rw
        (
          get-delete_file w merkle owner start (tree_key merkle owner start),
          bytes_apart _ _ (tree_key-ne-cid_key merkle owner start merkle),
          bytes_equal_refl (tree_key merkle owner start),
        )
        (ground arith)

  -- After a deletion, over a database whose writes succeed, the contract is no longer found, and
  -- every contract with another key is found or not as before.
  pub delete_file_forgets :
      (m : Merkle) (w : World Db Blocks) (merkle owner : Bytes) (start : ℤ) (merkle' owner' : Bytes)
      (start' : ℤ)
      → tree_key merkle' owner' start' ≢ tree_key merkle owner start
      → let w' = (delete_file b p order fuel w merkle owner start).0 in
        (check_tree b p m w' merkle owner start ≡ some false)
        × (check_tree b p m w' merkle' owner' start' ≡ check_tree b p m w merkle' owner' start')
  unfolding check_tree
  delete_file_forgets m w merkle owner start merkle' owner' start' n = (
    delete_file_missing m w merkle owner start,
    rw
        (
          get-delete_file w merkle owner start (tree_key merkle' owner' start'),
          bytes_apart _ _ (tree_key-ne-cid_key merkle' owner' start' merkle),
          bytes_apart _ _ n,
        )
        (ground arith),
  )

  -- The check for other contracts of the same data looks for keys that begin with the raw root,
  -- and the keys of contracts begin with "tree/". If no key of the database begins with the root,
  -- then deleting one of two contracts for the same data, over a database whose writes succeed,
  -- deletes the CID of that data: the other contract is still found, and none of its chunks can be
  -- read any more, for want of a key.
  pub delete_file_breaks_shared :
      (m : Merkle) (w : World Db Blocks) (merkle owner : Bytes) (start : ℤ) (owner' : Bytes)
      (start' : ℤ) (json : Bytes) (t : m.Tree) (index chunk_size proof_type : ℤ)
      → tree_key merkle owner' start' ≢ tree_key merkle owner start
      → b.iterate (delete_key b p order fuel w.db (tree_key merkle owner start)) merkle ≡ []
      → look w.db (tree_key merkle owner' start') ≡ found json
      → m.unmarshal_tree json ≡ some t
      → let w' = (delete_file b p order fuel w merkle owner start).0 in
        (check_tree b p m w' merkle owner' start' ≡ some true)
        × (get_cid_from_merkle b p m w' merkle ≡ not_found)
        × (get_file_tree_by_chunk b p m w' merkle owner' start' index chunk_size proof_type
            ≡ inl cid_not_found)
  unfolding check_tree get_cid_from_merkle get_file_tree_by_chunk
  delete_file_breaks_shared m w merkle owner start owner' start' json t index chunk_size proof_type
        n none_left e parses =
      let w' = (delete_file b p order fuel w merkle owner start).0 in
      let tree : look w'.db (tree_key merkle owner' start') ≡ found json =
        get-delete_file w merkle owner start (tree_key merkle owner' start')
        ∙ rw
            (
              bytes_apart _ _ (tree_key-ne-cid_key merkle owner' start' merkle),
              bytes_apart _ _ n,
              e,
            )
            (ground arith) in
      let cid : look w'.db (cid_key merkle) ≡ not_found =
        get-delete_file w merkle owner start (cid_key merkle)
        ∙ rw (none_left, bytes_equal_refl (cid_key merkle)) in
      (rw tree, cid, rw (tree, parses, Read.parse_tree, cid, Read.parse_cid))
