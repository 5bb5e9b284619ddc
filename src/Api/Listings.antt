-- ===== src/Api/Listings.antt =====
-- The handlers that list what is stored (api/files.go, api/ipfs.go, api/data.go, api/client.go), with `Dump`
-- (file_system/file_system.go) and `MapCids` (file_system/ipfs.go), and `PostIPFSFolder`
-- (api/file_handler.go) with `CreateIPFSFolder` and `GenIPFSFolderData` (file_system/file_system.go). The
-- encoding of an answer as JSON is left out. A Go map is a list of its entries with one for each key.
pub mod Last
use sequoia.Prelude.{
  ℕ, ltb, if◌then◌else◌, Bool, true, false, List, [], ◌∷◌, Option, none, some, map, length, drop,
  take,
}
use sequoia.Prelude.Int.{ℤ, ◌-ℤ◌}
use sequoia.Prelude.Bytes.{Bytes, bytes_equal, codes}
use sequoia.Prelude.Bytes.Hex.{hex_encode}
use sequoia.Prelude.Bytes.Decimal.{parse_int}
use sequoia.Seeker.{wrap_i64}
use sequoia.FileSystem.Keys.{Contract, cid_prefix}
use sequoia.FileSystem.Stores.{Badger, Item}
use sequoia.FileSystem.Listing.{Listing, listed, list_failed, list_panic, list_files, list_cids}

-- An answer, the status 500, no body at all, or a panic.
pub data Answer {ℓ} (A : Type ℓ) : Type ℓ where
  answered : A → Answer A
  internal_error no_body crashed : Answer A

pub record ListResponse : Type 0 where
  pub files : List Bytes
  pub count : ℕ

pub record LegacyValue : Type 0 where
  pub cid : Bytes
  pub fid : Bytes

pub record SpaceResponse : Type 0 where
  pub total : ℤ
  pub used : ℤ
  pub free : ℤ

abbrev hex_of : Contract → Bytes
hex_of c = hex_encode c.merkle

abbrev by_listing {ℓ} : {A : Type ℓ} → (List Contract → A) → Listing → Answer A
by_listing f (listed cs) = answered (f cs)
by_listing f (list_failed cs) = internal_error
by_listing f list_panic = crashed

module _ (b : Badger) where
  unfoldable pub list_files_handler : b.Db → Answer ListResponse
  list_files_handler db =
      by_listing (λ cs. record { files = map hex_of cs; count = length (map hex_of cs) })
        (list_files b db)

  unfoldable pub legacy_list_files_handler : b.Db → Answer (List LegacyValue)
  legacy_list_files_handler db =
      by_listing (map λ c. record { cid = hex_of c; fid = c.owner }) (list_files b db)

-- A total that is no number gets no body. `new_int` is `sdk.NewIntFromString` with `Int64`.
abbrev space_of : Option ℤ → ℤ → Answer SpaceResponse
space_of none free = no_body
space_of (some total) free =
    answered (record { total = total; used = wrap_i64 (total -ℤ free); free = free })

abbrev with_free : (Bytes → Option ℤ) → Bytes → Option ℤ → Answer SpaceResponse
with_free new_int total none = internal_error
with_free new_int total (some free) = space_of (new_int total) free

-- `provider` is the total that the chain has of the provider, `free_space` its answer to the other query.
unfoldable pub space_handler : (Bytes → Option ℤ) → Option Bytes → Option ℤ → Answer SpaceResponse
space_handler new_int none free_space = internal_error
space_handler new_int (some total) free_space = with_free new_int total free_space

abbrev or_error {ℓ} : {A : Type ℓ} → Option A → Answer A
or_error none = internal_error
or_error (some x) = answered x

unfoldable pub ipfs_list_cids : Option (List Bytes) → Answer (List Bytes)
ipfs_list_cids cids = or_error cids

-- `Dump`: the entries up to an error, or the panic of a slice beyond the end of a short key.
pub data Dumped : Type 0 where
  dumped : List (Bytes × Bytes) → Dumped
  dump_failed dump_panicked : Dumped

abbrev pub cons_entry : Bytes → Option Bytes → Dumped → Dumped
cons_entry k none rest = dump_failed
cons_entry k (some v) (dumped es) = dumped ((k, v) ∷ es)
cons_entry k (some v) dump_failed = dump_failed
cons_entry k (some v) dump_panicked = dump_panicked

abbrev pub dump_long : Item → Dumped → Dumped
dump_long i rest =
    if bytes_equal (take 5 i.key) (codes "chunk") then rest else cons_entry i.key i.val rest

-- The slices to 4 and to 5 bytes, by the length of the key.
abbrev pub dump_key : ℕ → Item → Dumped → Dumped
dump_key len i rest =
    if ltb len 4
    then dump_panicked
    else if bytes_equal (take 4 i.key) (codes "tree")
    then rest
    else if ltb len 5
    then dump_panicked
    else dump_long i rest

unfoldable pub dump_items : List Item → Dumped
dump_items [] = dumped []
dump_items (i ∷ is) = dump_key (length i.key) i (dump_items is)

-- `m[k] = v`, and `m[k]`.
unfoldable pub put : Bytes → Bytes → List (Bytes × Bytes) → List (Bytes × Bytes)
put k v [] = (k, v) ∷ []
put k v ((j, w) ∷ m) = let rest = put k v m in if bytes_equal j k then (k, v) ∷ m else (j, w) ∷ rest

unfoldable pub lookup : Bytes → List (Bytes × Bytes) → Option Bytes
lookup k [] = none
lookup k ((j, w) ∷ m) = let rest = lookup k m in if bytes_equal k j then some w else rest

-- `MapCids`: each CID with the text of a root as it stands in the key. The keys are taken as
-- copies; the code keeps slices of the iterator's.
abbrev pub root_text : Item → Bytes
root_text i = drop (length cid_prefix) i.key

abbrev pub put_value : Option Bytes → Bytes → List (Bytes × Bytes) → Option (List (Bytes × Bytes))
put_value none root m = none
put_value (some c) root m = some (put c root m)

unfoldable pub map_items : List Item → List (Bytes × Bytes) → Option (List (Bytes × Bytes))
map_items [] m = some m
map_items (i ∷ is) m = elim (put_value i.val (root_text i) m) [
  | none ↦ none
  | some m' ↦ map_items is m'
]

unfoldable pub map_cids : (b : Badger) → b.Db → Option (List (Bytes × Bytes))
map_cids b db = map_items (b.iterate db cid_prefix) []

-- `m[merk] = cid` for each entry.
unfoldable pub by_root : List (Bytes × Bytes) → List (Bytes × Bytes)
by_root [] = []
by_root ((c, root) ∷ m) = put (hex_encode root) c (by_root m)

abbrev pub map_answer : Option (List (Bytes × Bytes)) → Answer (List (Bytes × Bytes))
map_answer none = internal_error
map_answer (some m) = answered (by_root m)

unfoldable pub ipfs_map_cids : (b : Badger) → b.Db → Answer (List (Bytes × Bytes))
ipfs_map_cids b db = map_answer (map_cids b db)
