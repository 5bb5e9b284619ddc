-- ===== src/FileSystem/Listing.antt =====
-- `ListFiles`, `ProcessFiles` (file_system/file_system.go), `ListCids` and `ListUnusedCids`
-- (file_system/ipfs.go).
pub mod Files
pub mod Unused
use sequoia.Prelude.{
  ℕ, ◌==◌, if◌then◌else◌, Bool, true, false, not, List, [], ◌∷◌, ◌++◌, ◌≡◌, Option, none, some, ◌⊎◌,
  inl, inr, contains, drop, map,
}
use sequoia.Prelude.Int.{ℤ}
use sequoia.Prelude.Bytes.{Bytes, codes}
use sequoia.FileSystem.Keys.{
  Contract, Parsed, parsed, bad_merkle, bad_start, index_panic, split_merkle, tree_prefix,
  cid_prefix,
}
use sequoia.FileSystem.Dag.{Collected, nodes, get_failed, out_of_fuel, collect_dag_nodes}
use sequoia.FileSystem.Stores.{Badger, Ipfs, World, Item}

-- The contracts in the order of their keys; those before an error; or the panic of an index out of
-- range in `SplitMerkle`.
pub data Listing : Type 0 where
  listed : List Contract → Listing
  list_failed : List Contract → Listing
  list_panic : Listing

abbrev pub cons_listing : Contract → Listing → Listing
cons_listing c (listed cs) = listed (c ∷ cs)
cons_listing c (list_failed cs) = list_failed (c ∷ cs)
cons_listing c list_panic = list_panic

abbrev pub by_parsed : Parsed → Listing → Listing
by_parsed (parsed c) rest = cons_listing c rest
by_parsed bad_merkle rest = list_failed []
by_parsed bad_start rest = list_failed []
by_parsed index_panic rest = list_panic

-- The value of an item is read before its key is taken apart.
abbrev pub by_value : Option Bytes → Bytes → Listing → Listing
by_value none key rest = list_failed []
by_value (some v) key rest = by_parsed (split_merkle (drop 5 key)) rest

unfoldable pub list_items : List Item → Listing
unfolding split_merkle
list_items [] = listed []
list_items (i ∷ is) = by_value i.val i.key (list_items is)

-- What the callback has made of the state, and whether the walk ended without an error.
pub data Processed {ℓ} (S : Type ℓ) : Type ℓ where
  processed : S → Processed S
  process_failed : S → Processed S
  process_panic : Processed S

-- One call of the callback for each item up to an error; `go` walks the rest from the new state.
process_parsed {ℓ} :
    {S : Type ℓ} → (Contract → S → S) → S → Parsed → (S → Processed S) → Processed S
process_parsed fn s (parsed c) go = go (fn c s)
process_parsed fn s bad_merkle go = process_failed s
process_parsed fn s bad_start go = process_failed s
process_parsed fn s index_panic go = process_panic

process_value {ℓ} :
    {S : Type ℓ} → (Contract → S → S) → S → Option Bytes → Bytes → (S → Processed S) → Processed S
unfolding process_parsed
process_value fn s none key go = process_failed s
process_value fn s (some v) key go = process_parsed fn s (split_merkle (drop 5 key)) go

unfoldable pub process_items {ℓ} : {S : Type ℓ} → (Contract → S → S) → List Item → S → Processed S
unfolding process_value split_merkle
process_items fn [] s = processed s
process_items fn (i ∷ is) s = process_value fn s i.val i.key (process_items fn is)

module _ (b : Badger) where
  unfoldable pub list_files : b.Db → Listing
  unfolding list_items
  list_files db = list_items (b.iterate db tree_prefix)

  unfoldable pub process_files {ℓ} : {S : Type ℓ} → (Contract → S → S) → b.Db → S → Processed S
  unfolding process_items
  process_files fn db s = process_items fn (b.iterate db tree_prefix) s

-- The values of the items, unless one cannot be read.
abbrev pub cons_value : Option Bytes → Option (List Bytes) → Option (List Bytes)
cons_value none vs = none
cons_value (some v) none = none
cons_value (some v) (some vs) = some (v ∷ vs)

unfoldable pub values : List Item → Option (List Bytes)
values [] = some []
values (i ∷ is) = cons_value i.val (values is)

-- The blocks that the recorded roots lead to, unless the fuel of a walk runs out. A text that is no CID
-- and a DAG that cannot be read are skipped.
abbrev pub collected_or_none : Collected → Option (List ℕ)
collected_or_none (nodes cs) = some cs
collected_or_none get_failed = some []
collected_or_none out_of_fuel = none

abbrev pub both_lists : Option (List ℕ) → Option (List ℕ) → Option (List ℕ)
both_lists none ds = none
both_lists (some cs) none = none
both_lists (some cs) (some ds) = some (cs ++ ds)

-- The CIDs, an error, or fuel that ran out.
pub data UnusedCids : Type 0 where
  unused : List ℕ → UnusedCids
  list_error no_fuel : UnusedCids

-- A list as the keys of a map.
unfoldable pub dedup : List ℕ → List ℕ
dedup [] = []
dedup (c ∷ cs) = let rest = dedup cs in if contains c rest then rest else c ∷ rest

unfoldable pub not_in : List ℕ → List ℕ → List ℕ
not_in seen [] = []
not_in seen (c ∷ cs) = let rest = not_in seen cs in if contains c seen then rest else c ∷ rest

module _ (b : Badger) (p : Ipfs) (fuel : ℕ) where
  unfoldable pub list_cids : b.Db → Option (List Bytes)
  unfolding values
  list_cids db = values (b.iterate db cid_prefix)

  unfoldable pub root_nodes : p.Blocks → Option ℕ → Option (List ℕ)
  root_nodes blocks none = some []
  root_nodes blocks (some root) = collected_or_none (collect_dag_nodes (p.links blocks) fuel root)

  unfoldable pub referenced : p.Blocks → List Bytes → Option (List ℕ)
  referenced blocks [] = some []
  referenced blocks (s ∷ ss) =
      both_lists (root_nodes blocks (p.decode_cid s)) (referenced blocks ss)

  unfoldable pub unused_among : Option (List ℕ) → Option (List ℕ) → UnusedCids
  unused_among none keys = no_fuel
  unused_among (some refs) none = list_error
  unused_among (some refs) (some keys) = unused (not_in refs (dedup keys))

  -- The unused CIDs, before they are printed.
  unfoldable pub unused_of : p.Blocks → Option (List Bytes) → UnusedCids
  unused_of blocks none = list_error
  unused_of blocks (some roots) = unused_among (referenced blocks roots) (p.all_keys blocks)

  unfoldable pub list_unused_cids : World b.Db p.Blocks → UnusedCids
  list_unused_cids w = unused_of w.blocks (list_cids w.db)
