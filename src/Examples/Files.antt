-- ===== src/Examples/Files.antt =====
-- The theorems on the file system and the prover, applied to a file of two chunks.
use sequoia.Prelude.{ℕ, List, [], ◌∷◌, ◌≡◌, refl, some, arith, true, contains, ◌↔◌}
use sequoia.Prelude.Int.{pos, negsuc}
use sequoia.Prelude.Bytes.{Bytes, bytes_equal, has_prefix, codes}
use sequoia.Prelude.Bytes.Hex.{hex_encode}
use sequoia.Prelude.Bytes.Decimal.{format_int}
use sequoia.FileSystem.Keys.{Contract, IsPlain, split_merkle, tree_key, cid_key}
use sequoia.FileSystem.Stores.{World}
use sequoia.FileSystem.Tree.{Reader, built, build_tree, leaf}
use sequoia.FileSystem.Write.{Tracker, write_file}
use sequoia.FileSystem.Write.Effects.{WriteResult, write_file-WriteResult}
use sequoia.FileSystem.Listing.{listed, list_files, list_items, list_cids, list_unused_cids, unused}
use sequoia.FileSystem.Listing.Files.{Among, list_files_complete}
use sequoia.FileSystem.Listing.Unused.{Refers, RootsIn, list_unused_cids_exact}
use sequoia.FileSystem.Dag.Total.{IsClosed}
use sequoia.Examples.Stores.{Pairs, pairs_db, small_ipfs, list_merkle, encode, lookup, items_under}

abbrev pub chunks : List Bytes
chunks = (0 ∷ 7 ∷ []) ∷ (1 ∷ 7 ∷ []) ∷ []

abbrev pub reader : Reader
reader = record { reads = chunks; rewinds = true; whole = some (0 ∷ 7 ∷ 1 ∷ 7 ∷ []) }

abbrev pub leaves : List Bytes
leaves = (115 ∷ codes "00007") ∷ (115 ∷ codes "10107") ∷ []

abbrev pub root : Bytes
root = 116 ∷ 49 ∷ 49 ∷ 49 ∷ 49 ∷ 56 ∷ 0 ∷ 116 ∷ 50 ∷ 49 ∷ 50 ∷ 49 ∷ 56 ∷ 0 ∷ []

abbrev pub owner : Bytes
owner = codes "jkl1"

abbrev blank : World Pairs (List ℕ)
blank = record { db = []; blocks = []; file_count = pos 0 }

abbrev start_tracker : Tracker
start_tracker = record {
  merkle = root;
  owner = owner;
  start = pos 5;
  cid = [];
  progress = 0;
  status = codes "new";
}

root_lem : encode leaves ≡ root
unfolding encode
root_lem = refl

pub built_lem : build_tree list_merkle chunks (pos 0) ≡ built leaves root 4
unfolding build_tree leaf encode format_int hex_encode
built_lem = refl

write_file-WriteResult_example :
    let res =
      write_file pairs_db small_ipfs list_merkle blank reader root owner (pos 5) (pos 0) tt in
    WriteResult pairs_db small_ipfs list_merkle blank reader root owner (pos 5) (pos 0) res.0 res.1
write_file-WriteResult_example =
    write_file-WriteResult pairs_db small_ipfs list_merkle blank reader root owner (pos 5) (pos 0)
      tt

abbrev pub contract : Contract
contract = record { merkle = 171 ∷ 205 ∷ []; owner = owner; start = pos 5 }

pub contract-IsPlain : IsPlain contract
contract-IsPlain = record {
  merkle_bytes = (omega arith, (omega arith, tt));
  owner_slashless = (omega arith, (omega arith, (omega arith, (omega arith, tt))));
  start_i64 = (omega arith, omega arith);
}

-- Another contract for the same data, whose tree was written first.
abbrev pub two_contracts : Pairs
two_contracts =
    (tree_key (171 ∷ 205 ∷ []) owner (pos 5), 5 ∷ [])
    ∷ (tree_key (171 ∷ 205 ∷ []) (codes "jkl2") (negsuc 0), 6 ∷ [])
    ∷ (cid_key (171 ∷ 205 ∷ []), 1 ∷ [])
    ∷ []

abbrev pub other_contract : Contract
other_contract = record { merkle = 171 ∷ 205 ∷ []; owner = codes "jkl2"; start = negsuc 0 }

pub both_listed : list_files pairs_db two_contracts ≡ listed (contract ∷ other_contract ∷ [])
unfolding list_files items_under list_items split_merkle tree_key cid_key has_prefix hex_encode
    format_int
both_listed = refl

list_files_complete_example : Among contract (contract ∷ other_contract ∷ [])
unfolding lookup bytes_equal tree_key cid_key hex_encode format_int
list_files_complete_example =
    list_files_complete pairs_db two_contracts contract (5 ∷ []) (contract ∷ other_contract ∷ [])
      contract-IsPlain refl both_listed

-- A file with the CID 1 and a block that nothing refers to.
abbrev with_orphan : World Pairs (List ℕ)
with_orphan = record { db = two_contracts; blocks = 1 ∷ 2 ∷ 3 ∷ 9 ∷ []; file_count = pos 2 }

with_orphan-IsClosed : IsClosed (small_ipfs.links with_orphan.blocks) (1 ∷ 2 ∷ 3 ∷ 9 ∷ [])
with_orphan-IsClosed u ls v h e k = ground arith

with_orphan-RootsIn : RootsIn pairs_db small_ipfs (1 ∷ 2 ∷ 3 ∷ 9 ∷ []) ((1 ∷ []) ∷ [])
with_orphan-RootsIn = ((λ root e. let same : 1 ≡ root = cc in rw (← same) refl), tt)

list_unused_cids_exact_example :
    (cids : List ℕ) × (list_unused_cids pairs_db small_ipfs 10 with_orphan ≡ unused cids)
    × ((v : ℕ)
        → (contains v cids ≡ true) ↔ (
            (contains v (1 ∷ 2 ∷ 3 ∷ 9 ∷ []) ≡ true)
            × ¬ Refers pairs_db small_ipfs (1 ∷ 2 ∷ 3 ∷ 9 ∷ []) ((1 ∷ []) ∷ []) v))
unfolding list_cids items_under has_prefix tree_key cid_key
list_unused_cids_exact_example =
    list_unused_cids_exact pairs_db small_ipfs 10 with_orphan (1 ∷ 2 ∷ 3 ∷ 9 ∷ []) ((1 ∷ []) ∷ [])
      (1 ∷ 2 ∷ 3 ∷ 9 ∷ []) with_orphan-IsClosed (omega arith) with_orphan-RootsIn refl refl
