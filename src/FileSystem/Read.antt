-- ===== src/FileSystem/Read.antt =====
-- `CheckTree`, `GetFileTreeByChunk` and `GetCIDFromMerkle` (file_system/). A value that cannot be
-- read after its key was found counts as a failed read.
use sequoia.Prelude.{ℕ, if◌then◌else◌, Bool, true, false, ◌≡◌, Option, none, some, ◌⊎◌, inl, inr}
use sequoia.Prelude.Int.{ℤ, eqb_ℤ}
use sequoia.Prelude.Bytes.{Bytes}
use sequoia.FileSystem.Keys.{tree_key, cid_key}
use sequoia.FileSystem.Stores.{Badger, Ipfs, Merkle, World, Fetch, found, not_found, failed}
use sequoia.FileSystem.Tree.{proof_type_ipfs_folder}

-- Whether `errors.Is(err, badger.ErrKeyNotFound)` holds matters to the prover.
pub data ReadError : Type 0 where
  tree_not_found cid_not_found : ReadError
  tree_unreadable cid_unreadable bad_tree bad_cid no_chunk : ReadError

abbrev pub is_key_not_found : ReadError → Bool
is_key_not_found tree_not_found = true
is_key_not_found cid_not_found = true
is_key_not_found _ = false

module _ (b : Badger) (p : Ipfs) (m : Merkle) where
  open b use {Db}
  open p use {Blocks}

  -- A read error is an error, a missing key is not.
  pub present : Fetch → Option Bool
  present (found v) = some true
  present not_found = some false
  present failed = none

  unfoldable pub check_tree : World Db Blocks → Bytes → Bytes → ℤ → Option Bool
  unfolding present
  check_tree w merkle owner start = present (b.get (b.begin w.db) (tree_key merkle owner start))

  unfoldable pub parse_tree : Fetch → ReadError ⊎ m.Tree
  parse_tree not_found = inl tree_not_found
  parse_tree failed = inl tree_unreadable
  parse_tree (found json) = elim (m.unmarshal_tree json) [ none ↦ inl bad_tree | some t ↦ inr t ]

  unfoldable pub parse_cid : Fetch → ReadError ⊎ ℕ
  parse_cid not_found = inl cid_not_found
  parse_cid failed = inl cid_unreadable
  parse_cid (found s) = elim (p.decode_cid s) [ none ↦ inl bad_cid | some c ↦ inr c ]

  -- The whole node of a folder, or one chunk of a file. For a CID whose node is no `ProtoNode`, where the
  -- code panics, `get_node_json` gives nothing, as for one that cannot be read.
  unfoldable pub load_chunk : Blocks → ℤ → ℕ → ℤ → ℤ → Option Bytes
  load_chunk blocks proof_type cid chunk_to_load chunk_size =
      if eqb_ℤ proof_type proof_type_ipfs_folder
      then p.get_node_json blocks cid
      else p.get_file_chunk blocks cid chunk_to_load chunk_size

  with_chunk : m.Tree → Option Bytes → ReadError ⊎ (m.Tree × Bytes)
  with_chunk t none = inl no_chunk
  with_chunk t (some chunk) = inr (t, chunk)

  with_cid : Blocks → ℤ → ℤ → ℤ → m.Tree → ReadError ⊎ ℕ → ReadError ⊎ (m.Tree × Bytes)
  unfolding load_chunk with_chunk
  with_cid blocks proof_type chunk_to_load chunk_size t (inl e) = inl e
  with_cid blocks proof_type chunk_to_load chunk_size t (inr c) =
      with_chunk t (load_chunk blocks proof_type c chunk_to_load chunk_size)

  with_tree :
      World Db Blocks → Bytes → ℤ → ℤ → ℤ → ReadError ⊎ m.Tree → ReadError ⊎ (m.Tree × Bytes)
  unfolding parse_cid with_cid
  with_tree w merkle proof_type chunk_to_load chunk_size (inl e) = inl e
  with_tree w merkle proof_type chunk_to_load chunk_size (inr t) =
      with_cid w.blocks proof_type chunk_to_load chunk_size t
        (parse_cid (b.get (b.begin w.db) (cid_key merkle)))

  unfoldable pub get_file_tree_by_chunk :
      World Db Blocks → Bytes → Bytes → ℤ → ℤ → ℤ → ℤ → ReadError ⊎ (m.Tree × Bytes)
  unfolding parse_tree with_tree
  get_file_tree_by_chunk w merkle owner start chunk_to_load chunk_size proof_type =
      with_tree w merkle proof_type chunk_to_load chunk_size
        (parse_tree (b.get (b.begin w.db) (tree_key merkle owner start)))

  unfoldable pub get_cid_from_merkle : World Db Blocks → Bytes → Fetch
  get_cid_from_merkle w merkle = b.get (b.begin w.db) (cid_key merkle)

-- With both entries there, the read gives the tree and the chunk.
module _ (b : Badger) (p : Ipfs) (m : Merkle) where
  pub get_file_tree_by_chunk_found :
      (w : World b.Db p.Blocks) (merkle owner : Bytes) (start : ℤ) (index chunk_size : ℤ)
      (proof_type : ℤ) (json : Bytes) (t : m.Tree) (c : ℕ) (chunk : Bytes)
      → b.get (b.begin w.db) (tree_key merkle owner start) ≡ found json
      → m.unmarshal_tree json ≡ some t
      → b.get (b.begin w.db) (cid_key merkle) ≡ found (p.cid_string c)
      → load_chunk b p m w.blocks proof_type c index chunk_size ≡ some chunk
      → get_file_tree_by_chunk b p m w merkle owner start index chunk_size proof_type
        ≡ inr (t, chunk)
  unfolding get_file_tree_by_chunk
  get_file_tree_by_chunk_found w merkle owner start index chunk_size proof_type json t c chunk e1 e2
        e3 e4 =
      rw (e1, e2, parse_tree, e3, p.decode_cid-cid_string c, parse_cid, e4)
