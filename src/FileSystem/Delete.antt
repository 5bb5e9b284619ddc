-- ===== src/FileSystem/Delete.antt =====
-- `DeleteFile`, `removeContract`, `deleteFile` and `removeDAGNode` (file_system/file_system.go). Go
-- walks the collected map in an order of its own, which is a parameter, as is the fuel of the
-- collection.
pub mod Blocks
pub mod Shared
use sequoia.Prelude.{
  ℕ, ◌==◌, if◌then◌else◌, Bool, true, false, not, List, [], ◌∷◌, ◌≡◌, Option, none, some, ◌⊎◌, inl,
  inr,
}
use sequoia.Prelude.Int.{ℤ, pos, ◌-ℤ◌}
use sequoia.Prelude.Bytes.{Bytes}
use sequoia.FileSystem.Keys.{tree_key, cid_key}
use sequoia.FileSystem.Dag.{Collected, nodes, get_failed, out_of_fuel, collect_dag_nodes}
use sequoia.FileSystem.Stores.{Badger, Ipfs, World, Fetch, found, not_found, failed, Item}

pub data Deleted : Type 0 where
  deleted bad_cid cannot_collect cannot_delete no_fuel : Deleted

module _ (p : Ipfs) (order : List ℕ → List ℕ) (fuel : ℕ) where
  open p use {Blocks}

  -- The blocks one by one; an error leaves the rest.
  pub delete_blocks : Blocks → List ℕ → Blocks × Deleted
  delete_blocks blocks [] = (blocks, deleted)
  delete_blocks blocks (c ∷ cs) = elim (p.delete_block blocks c) [
    | none ↦ (blocks, cannot_delete)
    | some blocks' ↦ delete_blocks blocks' cs
  ]

  pub remove_collected : Blocks → Collected → Blocks × Deleted
  unfolding delete_blocks
  remove_collected blocks (nodes cs) = delete_blocks blocks (order cs)
  remove_collected blocks get_failed = (blocks, cannot_collect)
  remove_collected blocks out_of_fuel = (blocks, no_fuel)

  unfoldable pub remove_dag_node : Blocks → ℕ → Blocks × Deleted
  unfolding remove_collected collect_dag_nodes
  remove_dag_node blocks c = remove_collected blocks (collect_dag_nodes (p.links blocks) fuel c)

module _ (b : Badger) (p : Ipfs) (order : List ℕ → List ℕ) (fuel : ℕ) where
  open b use {Db}
  open p use {Blocks}

  -- An `Update` that deletes one key. Its error is only logged.
  pub committed_or : Db → Option b.Txn → Db
  committed_or db none = db
  committed_or db (some t) = elim (b.commit t) [ none ↦ db | some db' ↦ db' ]

  unfoldable pub delete_key : Db → Bytes → Db
  unfolding committed_or
  delete_key db k = committed_or db (b.delete (b.begin db) k)

  -- The CID's text, or the empty one.
  pub cid_text : Fetch → Bytes
  cid_text (found s) = s
  cid_text not_found = []
  cid_text failed = []

  pub remove_decoded : World Db Blocks → Option ℕ → World Db Blocks × Deleted
  unfolding remove_dag_node
  remove_decoded w none = (w, bad_cid)
  remove_decoded w (some c) =
      let (blocks, res) = remove_dag_node p order fuel w.blocks c in
      (record w { blocks = blocks }, res)

  -- `deleteFile`, which forgets the data.
  unfoldable pub delete_data : World Db Blocks → Bytes → World Db Blocks × Deleted
  unfolding cid_text remove_decoded delete_key
  delete_data w merkle =
      let text = cid_text (b.get (b.begin w.db) (cid_key merkle)) in
      remove_decoded
        (record w { db = delete_key w.db (cid_key merkle); file_count = w.file_count -ℤ pos 1 })
        (p.decode_cid text)

  abbrev pub is_valid : List Item → Bool
  is_valid [] = false
  is_valid (i ∷ is) = true

  -- The data goes when no other key was found.
  unfoldable pub delete_if_last : Bool → World Db Blocks → Bytes → World Db Blocks × Deleted
  delete_if_last true w merkle = (w, deleted)
  delete_if_last false w merkle = delete_data w merkle

  -- The check for other contracts iterates over the keys that begin with the raw root.
  unfoldable pub remove_contract : World Db Blocks → Bytes → Bytes → ℤ → World Db Blocks × Deleted
  remove_contract w merkle owner start =
      let db = delete_key w.db (tree_key merkle owner start) in
      delete_if_last (is_valid (b.iterate db merkle)) (record w { db = db }) merkle

  unfoldable pub delete_file : World Db Blocks → Bytes → Bytes → ℤ → World Db Blocks × Deleted
  unfolding remove_contract
  delete_file w merkle owner start = remove_contract w merkle owner start
