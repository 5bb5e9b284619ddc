-- ===== src/FileSystem/Stores.antt =====
-- What the file system relies on and does not implement: the Badger database, the IPFS peer with its
-- block store, the Merkle tree library and the hash functions. Each is a record of operations with
-- the laws that are documented of it.
use sequoia.Prelude.{
  ℕ, ◌==◌, if◌then◌else◌, Bool, true, not, ◌&&◌, List, [], ◌∷◌, ◌≡◌, Option, some, ◌⊎◌,
}
use sequoia.Prelude.Int.{ℤ}
use sequoia.Prelude.Bytes.{Bytes, bytes_equal, has_prefix}

-- `txn.Get`: a value, `ErrKeyNotFound`, or another error.
pub data Fetch : Type 0 where
  found : Bytes → Fetch
  not_found failed : Fetch

-- An item of an iterator; reading its value can fail.
pub record Item : Type 0 where
  pub key : Bytes
  pub val : Option Bytes

-- The key is one of an iterator's.
abbrev pub Lists : Bytes → List Item → Type 0
Lists k [] = ⊥
Lists k (i ∷ is) = (i.key ≡ k) ⊎ Lists k is

-- `Set`, `Delete` and the commit of a transaction can fail, and then nothing is written.
pub record Badger : Type 1 where
  pub Db : Type 0
  pub Txn : Type 0
  pub begin : Db → Txn
  pub get : Txn → Bytes → Fetch
  pub put : Txn → Bytes → Bytes → Option Txn
  pub delete : Txn → Bytes → Option Txn
  pub commit : Txn → Option Db
  pub iterate : Db → Bytes → List Item
  pub get-put :
      (t t' : Txn) (k v j : Bytes)
      → put t k v ≡ some t'
      → get t' j ≡ (if bytes_equal j k then found v else get t j)
  pub get-delete :
      (t t' : Txn) (k j : Bytes)
      → delete t k ≡ some t'
      → get t' j ≡ (if bytes_equal j k then not_found else get t j)
  pub get-commit : (t : Txn) (db : Db) (j : Bytes) → commit t ≡ some db → get (begin db) j ≡ get t j
  pub iterate_prefix : (db : Db) (p k : Bytes) → Lists k (iterate db p) → has_prefix k p ≡ true
  pub iterate_all :
      (db : Db) (p k v : Bytes)
      → get (begin db) k ≡ found v
      → has_prefix k p ≡ true
      → Lists k (iterate db p)

-- `ipfslite.Peer`. A CID is a number. An addition that fails may leave blocks behind.
pub record Ipfs : Type 1 where
  pub Blocks : Type 0
  pub Params : Type 0
  pub has : Blocks → ℕ → Bool
  pub links : Blocks → ℕ → Option (List ℕ)
  pub delete_block : Blocks → ℕ → Option Blocks
  pub add_file : Blocks → Bytes → Params → Blocks × Option ℕ
  pub add_folder : Blocks → Bytes → Blocks × Option ℕ
  pub after_broken_add : Blocks → Blocks
  pub get_file_chunk : Blocks → ℕ → ℤ → ℤ → Option Bytes
  pub get_node_json : Blocks → ℕ → Option Bytes
  pub all_keys : Blocks → Option (List ℕ)
  pub cid_string : ℕ → Bytes
  pub decode_cid : Bytes → Option ℕ
  pub decode_cid-cid_string : (c : ℕ) → decode_cid (cid_string c) ≡ some c
  pub has-delete_block :
      (b b' : Blocks) (c d : ℕ) → delete_block b c ≡ some b' → has b' d ≡ (has b d && not (d == c))

-- The hash functions, `go-merkletree`, and its JSON.
pub record Merkle : Type 1 where
  pub Tree : Type 0
  pub Proof : Type 0
  pub sha256 : Bytes → Bytes
  pub blake3 : Bytes → Bytes
  -- `true` takes BLAKE3 for the inner nodes, `false` SHA3-512.
  pub new_tree : List Bytes → Bool → Option Tree
  pub root : Tree → Bytes
  pub marshal_tree : Tree → Option Bytes
  pub unmarshal_tree : Bytes → Option Tree
  pub generate_proof : Tree → Bytes → Option Proof
  -- An error, or whether the proof holds for the leaf under the root.
  pub verify_proof : Bytes → Proof → Bytes → Bool → Option Bool
  pub marshal_proof : Proof → Option Bytes

-- The leaf is one of the tree's.
abbrev pub IsLeaf : Bytes → List Bytes → Type 0
IsLeaf l [] = ⊥
IsLeaf l (x ∷ xs) = (l ≡ x) ⊎ IsLeaf l xs

-- The JSON of a tree reads back as the tree, and each leaf of a tree has a proof that verifies.
pub record MerkleLaws (m : Merkle) : Type 0 where
  pub reads_back :
      (t : m.Tree) (j : Bytes) → m.marshal_tree t ≡ some j → m.unmarshal_tree j ≡ some t
  pub proves :
      (leaves : List Bytes) (blake : Bool) (t : m.Tree) (l : Bytes)
      → m.new_tree leaves blake ≡ some t
      → IsLeaf l leaves
      → (pr : m.Proof) × (m.generate_proof t l ≡ some pr)
        × (m.verify_proof l pr (m.root t) blake ≡ some true)

-- A database whose writes succeed.
pub record NeverFails (b : Badger) : Type 0 where
  pub puts : (t : b.Txn) (k v : Bytes) → (t' : b.Txn) × (b.put t k v ≡ some t')
  pub deletes : (t : b.Txn) (k : Bytes) → (t' : b.Txn) × (b.delete t k ≡ some t')
  pub commits : (t : b.Txn) → (db : b.Db) × (b.commit t ≡ some db)

-- What a database and blocks together hold, with the gauge of the files.
pub record World (Db : Type 0) (Blocks : Type 0) : Type 0 where
  pub db : Db
  pub blocks : Blocks
  pub file_count : ℤ
