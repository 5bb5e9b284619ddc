-- ===== src/Examples/Removal.antt =====
-- The theorems on removal, applied to a small DAG and to a file with two contracts.
use sequoia.Prelude.{ℕ, List, [], ◌∷◌, ◌≡◌, ◌≢◌, refl, Option, some, inl, arith, true, false, subst}
use sequoia.Prelude.Int.{pos}
use sequoia.Prelude.Bytes.{Bytes, bytes_equal, bytes_equal_refl, has_prefix, codes}
use sequoia.Prelude.Bytes.Hex.{hex_encode}
use sequoia.Prelude.Bytes.Decimal.{format_int}
use sequoia.FileSystem.Keys.{tree_key, cid_key}
use sequoia.FileSystem.Stores.{World, not_found}
use sequoia.FileSystem.Dag.{out_of_fuel, collect_dag_nodes}
use sequoia.FileSystem.Dag.Complete.{IsReachable}
use sequoia.FileSystem.Dag.Total.{IsClosed, collect_dag_nodes_total}
use sequoia.FileSystem.Delete.{delete_file, delete_key}
use sequoia.FileSystem.Delete.Shared.{delete_file_breaks_shared}
use sequoia.FileSystem.Read.{check_tree, get_file_tree_by_chunk, get_cid_from_merkle, cid_not_found}
use sequoia.Examples.Stores.{
  Pairs, pairs_db, pairs_db-NeverFails, small_ipfs, list_merkle, link_if, lookup, items_under,
  remove, decode, push,
}

abbrev all_links : ℕ → Option (List ℕ)
all_links c = link_if true c

three-IsClosed : IsClosed all_links (1 ∷ 2 ∷ 3 ∷ [])
three-IsClosed u ls v known linked listed = ground arith

collect_dag_nodes_total_example :
    (collect_dag_nodes all_links 3 1 ≢ out_of_fuel)
    × IsReachable all_links 1 (collect_dag_nodes all_links 3 1)
collect_dag_nodes_total_example =
    collect_dag_nodes_total all_links (1 ∷ 2 ∷ 3 ∷ []) 1 3 three-IsClosed refl (omega arith)

abbrev same_order : List ℕ → List ℕ
same_order cs = cs

abbrev data_root : Bytes
data_root = 171 ∷ 205 ∷ []

abbrev shared : World Pairs (List ℕ)
shared = record {
  db =
      (tree_key data_root (codes "jkl1") (pos 5), 5 ∷ [])
      ∷ (tree_key data_root (codes "jkl2") (pos 7), 6 ∷ [])
      ∷ (cid_key data_root, 1 ∷ [])
      ∷ [];
  blocks = 1 ∷ 2 ∷ 3 ∷ 9 ∷ [];
  file_count = pos 2;
}

abbrev after_removal : World Pairs (List ℕ)
after_removal =
    (delete_file pairs_db small_ipfs same_order 5 shared data_root (codes "jkl1") (pos 5)).0

different : (a b : Bytes) → bytes_equal a b ≡ false → a ≢ b
different a b h e =
    let same : bytes_equal a b ≡ true =
      subst (λ (k : Bytes). bytes_equal a k ≡ true) e (bytes_equal_refl a) in
    cc

keys_apart : tree_key data_root (codes "jkl2") (pos 7) ≢ tree_key data_root (codes "jkl1") (pos 5)
unfolding tree_key hex_encode format_int bytes_equal
keys_apart = different _ _ refl

delete_file_breaks_shared_example :
    (check_tree pairs_db small_ipfs list_merkle after_removal data_root (codes "jkl2") (pos 7)
      ≡ some true)
    × (get_cid_from_merkle pairs_db small_ipfs list_merkle after_removal data_root ≡ not_found)
    × (get_file_tree_by_chunk pairs_db small_ipfs list_merkle after_removal data_root
          (codes "jkl2")
          (pos 7)
          (pos 0)
          (pos 1024)
          (pos 0)
        ≡ inl cid_not_found)
unfolding lookup items_under delete_key remove bytes_equal tree_key hex_encode format_int has_prefix
    cid_key decode push
delete_file_breaks_shared_example =
    delete_file_breaks_shared pairs_db small_ipfs same_order 5 pairs_db-NeverFails list_merkle
      shared data_root (codes "jkl1") (pos 5) (codes "jkl2") (pos 7) (6 ∷ []) ((5 ∷ []) ∷ [])
      (pos 0) (pos 1024) (pos 0) keys_apart refl refl refl
