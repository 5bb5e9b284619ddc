-- ===== src/Api/Paths.antt =====
-- What is served for a Merkle root and a path (api/file_handler.go, and `GetFileData` of
-- file_system/file_system.go). HTTP, the IPFS peer's files, JSON and the HTML of a folder are
-- parameters. The data that a reader gives is taken whole.
pub mod Resolve
pub mod Slashes
pub mod Stored
use sequoia.Prelude.{
  ℕ, ◌==◌, if◌then◌else◌, Bool, true, false, List, [], ◌∷◌, ◌++◌, Option, none, some, ◌⊎◌, inl, inr,
  length,
}
use sequoia.Prelude.Bytes.{Bytes, bytes_equal, codes}
use sequoia.Prelude.Bytes.Hex.{hex_decode}
use sequoia.Prelude.Bytes.Split.{split}
use sequoia.FileSystem.Keys.{cid_key, slash}
use sequoia.FileSystem.Stores.{Badger, Ipfs, World, Fetch, found, not_found, failed}

-- `types.FileNode` and `types.FolderData` (types/folders.go).
pub record FileNode : Type 0 where
  pub name : Bytes
  pub merkle : Bytes
  pub size : ℕ

pub record FolderData : Type 0 where
  pub name : Bytes
  pub merkle : Bytes
  pub version : ℕ
  pub children : List FileNode

-- `GetFile` of the IPFS peer: the data, an error with "is a directory" in it, or another error.
pub data Opened : Type 0 where
  opened : Bytes → Opened
  is_directory not_opened : Opened

pub data PathError : Type 0 where
  no_cid bad_cid no_folder_node no_file no_query not_on_network bad_copy : PathError
  not_a_folder path_not_valid no_html bad_merkle : PathError

-- A provider's answer: an address that is no URL, no response, or a status and a body, which may
-- break off.
pub data Answer : Type 0 where
  bad_url no_response : Answer
  response : ℕ → Option Bytes → Answer

-- What is outside: the peer's files, the query for providers, the providers, JSON, and the pages of
-- folders.
pub record Gateway (Blocks : Type 0) : Type 0 where
  pub get_file : Blocks → ℕ → Opened
  pub find_file : Bytes → Option (List Bytes)
  pub download : Bytes → Bytes → Bytes → Answer
  pub folder_data : Bytes → Option FolderData
  pub generate_html : FolderData → Bytes → Option Bytes
  pub my_ip : Bytes

-- `getMerklePathData` looks for the first child of the name.
unfoldable pub find_child : Bytes → List FileNode → Option FileNode
find_child p [] = none
find_child p (c ∷ cs) = if bytes_equal c.name p then some c else find_child p cs

abbrev non_empty : Bytes → List Bytes → List Bytes
non_empty [] ps = ps
non_empty (c ∷ s) ps = (c ∷ s) ∷ ps

unfoldable pub filtered : List Bytes → List Bytes
filtered [] = []
filtered (p ∷ ps) = non_empty p (filtered ps)

-- The names of a path.
abbrev pub names : Bytes → List Bytes
names path = filtered (split slash path)

-- The name and the data that are served, or a status with an error.
pub data Served : Type 0 where
  served : Bytes → Bytes → Served
  refused : ℕ → PathError → Served

abbrev pub or_merkle : Bytes → Bytes → Bytes
or_merkle [] merkle = merkle
or_merkle (c ∷ s) merkle = c ∷ s

module _ (b : Badger) (p : Ipfs) (g : Gateway p.Blocks) where
  open b use {Db}
  open p use {Blocks}

  pub folder_node : Option Bytes → PathError ⊎ Bytes
  folder_node none = inl no_folder_node
  folder_node (some j) = inr j

  pub open_cid : Blocks → ℕ → Opened → PathError ⊎ Bytes
  unfolding folder_node
  open_cid blocks c (opened data_) = inr data_
  open_cid blocks c is_directory = folder_node (p.get_node_json blocks c)
  open_cid blocks c not_opened = inl no_file

  pub with_cid : Blocks → Option ℕ → PathError ⊎ Bytes
  unfolding open_cid
  with_cid blocks none = inl bad_cid
  with_cid blocks (some c) = open_cid blocks c (g.get_file blocks c)

  pub by_cid : Blocks → Fetch → PathError ⊎ Bytes
  unfolding with_cid
  by_cid blocks (found s) = with_cid blocks (p.decode_cid s)
  by_cid blocks not_found = inl no_cid
  by_cid blocks failed = inl no_cid

  -- `GetFileData`: a file's data, or a folder's node as JSON.
  unfoldable pub get_file_data : World Db Blocks → Bytes → PathError ⊎ Bytes
  unfolding by_cid
  get_file_data w merkle = by_cid w.blocks (b.get (b.begin w.db) (cid_key merkle))

  abbrev copied : Option Bytes → PathError ⊎ Bytes
  copied none = inl bad_copy
  copied (some data_) = inr data_

  -- One provider: skipped, or the end of the search, also when its body breaks off.
  abbrev pub or_next : Answer → PathError ⊎ Bytes → PathError ⊎ Bytes
  or_next bad_url next = next
  or_next no_response next = next
  or_next (response code body) next = if code == 200 then copied body else next

  unfoldable pub ask_providers : Bytes → Bytes → List Bytes → PathError ⊎ Bytes
  ask_providers merkle name [] = inl not_on_network
  ask_providers merkle name (ip ∷ ips) =
      let next = ask_providers merkle name ips in
      if bytes_equal ip g.my_ip then next else or_next (g.download ip merkle name) next

  pub ask_network : Bytes → Bytes → Option (List Bytes) → PathError ⊎ Bytes
  unfolding ask_providers
  ask_network merkle name none = inl no_query
  ask_network merkle name (some ips) = ask_providers merkle name ips

  pub or_network : Bytes → Bytes → PathError ⊎ Bytes → PathError ⊎ Bytes
  unfolding ask_network
  or_network merkle name (inr data_) = inr data_
  or_network merkle name (inl e) = ask_network merkle name (g.find_file merkle)

  -- `getMerkleData`.
  unfoldable pub get_merkle_data : World Db Blocks → Bytes → Bytes → PathError ⊎ Bytes
  unfolding or_network get_file_data
  get_merkle_data w merkle name = or_network merkle name (get_file_data w merkle)

  abbrev pub with_html : Bytes → Option Bytes → PathError ⊎ (Bytes × Bytes)
  with_html name none = inl no_html
  with_html name (some html) = inr (html, name ++ codes ".html")

  abbrev pub or_html :
      Bytes → Bytes → Bytes → Bytes → Option FolderData → PathError ⊎ (Bytes × Bytes)
  or_html root name current data_ none = inr (data_, name)
  or_html root name current data_ (some folder) =
      with_html name (g.generate_html (record folder { merkle = root }) current)

  -- The end of the path: the data and its name, or the page of a folder.
  unfoldable pub at_end :
      Bytes → Bytes → Bytes → Bool → PathError ⊎ Bytes → PathError ⊎ (Bytes × Bytes)
  at_end root name current raw (inl e) = inl e
  at_end root name current raw (inr data_) =
      if raw then inr (data_, name) else or_html root name current data_ (g.folder_data data_)

  abbrev or_invalid : Option FileNode → PathError ⊎ FileNode
  or_invalid none = inl path_not_valid
  or_invalid (some c) = inr c

  abbrev pub child_of : Bytes → Option FolderData → PathError ⊎ FileNode
  child_of p none = inl not_a_folder
  child_of p (some folder) = or_invalid (find_child p folder.children)

  -- The child that a name leads to.
  unfoldable pub enter : Bytes → PathError ⊎ Bytes → PathError ⊎ FileNode
  enter p (inl e) = inl e
  enter p (inr data_) = child_of p (g.folder_data data_)

  abbrev pub and_then :
      PathError ⊎ FileNode → (FileNode → PathError ⊎ (Bytes × Bytes)) → PathError ⊎ (Bytes × Bytes)
  and_then (inl e) next = inl e
  and_then (inr c) next = next c

  -- `GetMerklePathData`: the data and the name.
  unfoldable pub get_merkle_path_data :
      World Db Blocks → Bytes → List Bytes → Bytes → Bytes → Bool → PathError ⊎ (Bytes × Bytes)
  get_merkle_path_data w root [] name current raw =
      at_end root name current raw (get_merkle_data w root name)
  get_merkle_path_data w root (p ∷ ps) name current raw =
      and_then (enter p (get_merkle_data w root name))
        (λ c. get_merkle_path_data w c.merkle ps c.name current raw)

  pub serve : PathError ⊎ (Bytes × Bytes) → Served
  serve (inl e) = refused 500 e
  serve (inr (data_, name)) = served name data_

  abbrev or_page : Bytes → Bytes → Bytes → Option FolderData → Bytes
  or_page merkle current data_ none = data_
  or_page merkle current data_ (some folder) =
      elim (g.generate_html (record folder { merkle = merkle }) current) [
        | none ↦ data_
        | some html ↦ html
      ]

  -- Without a path, a page that cannot be made leaves the data.
  pub serve_root : Bytes → Bytes → Bytes → Bool → PathError ⊎ Bytes → Served
  serve_root merkle name current raw (inl e) = refused 500 e
  serve_root merkle name current raw (inr data_) =
      served name (if raw then data_ else or_page merkle current data_ (g.folder_data data_))

  pub find_names : World Db Blocks → Bytes → Bytes → Bytes → Bool → List Bytes → Served
  unfolding serve serve_root get_merkle_path_data get_merkle_data
  find_names w merkle name current raw [] =
      serve_root merkle name current raw (get_merkle_data w merkle name)
  find_names w merkle name current raw (p ∷ ps) =
      serve (get_merkle_path_data w merkle (p ∷ ps) name current raw)

  pub find_root : World Db Blocks → Bytes → Bytes → Bytes → Bool → Option Bytes → Served
  unfolding find_names
  find_root w path name current raw none = refused 500 bad_merkle
  find_root w path name current raw (some merkle) =
      find_names w merkle name current raw (names path)

  -- `FindFileHandler`: a route without a path has the empty one. `current` is the path of the URL.
  unfoldable pub find_file_handler : World Db Blocks → Bytes → Bytes → Bytes → Bytes → Bool → Served
  unfolding find_root
  find_file_handler w merkle path file_name current raw =
      find_root w path (or_merkle file_name merkle) current raw (hex_decode merkle)

  pub serve_file : Bytes → PathError ⊎ Bytes → Served
  serve_file name (inl e) = refused 500 e
  serve_file name (inr data_) = served name data_

  -- `DownloadFileHandler`.
  unfoldable pub download_file_handler : World Db Blocks → Bytes → Bytes → Served
  unfolding serve_file get_file_data
  download_file_handler w merkle file_name = elim (hex_decode merkle) [
    | none ↦ refused 500 bad_merkle
    | some root ↦ serve_file (or_merkle file_name merkle) (get_file_data w root)
  ]
