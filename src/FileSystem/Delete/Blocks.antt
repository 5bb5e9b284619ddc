-- ===== src/FileSystem/Delete/Blocks.antt =====
-- Which blocks `removeDAGNode` (file_system/file_system.go) deletes.
use sequoia.Prelude.{
  ℕ, false, not, ◌&&◌, List, [], ◌∷◌, ◌≡◌, ◌∙◌, arith, contains, Bool-cases, Option-cases, inl, inr,
}
use sequoia.FileSystem.Dag.{Collected, nodes, get_failed, out_of_fuel, collect_dag_nodes, Reach}
use sequoia.FileSystem.Dag.Complete.{IsReachable, collect_dag_nodes-IsReachable}
use sequoia.FileSystem.Stores.{Ipfs}
use sequoia.FileSystem.Delete.{deleted, delete_blocks, remove_collected, remove_dag_node}

module _ (p : Ipfs) (order : List ℕ → List ℕ) (fuel : ℕ) where
  open p use {Blocks}

  has-delete_blocks :
      (blocks : Blocks) (cs : List ℕ) (v : ℕ)
      → (delete_blocks p order fuel blocks cs).1 ≡ deleted
      → p.has (delete_blocks p order fuel blocks cs).0 v ≡ (p.has blocks v && not (contains v cs))
  unfolding delete_blocks
  has-delete_blocks blocks [] v e = ground arith
  has-delete_blocks blocks (c ∷ cs) v e = elim (Option-cases (p.delete_block blocks c)) [
    | inl fails ↦ let k = rw (fails, delete_blocks) at e in cc
    | inr (next, d) ↦
        rw (d, delete_blocks)
          (has-delete_blocks next cs v (rw (d, delete_blocks) at e)
            ∙ ground (arith, p.has-delete_block blocks next c v d))
  ]

  -- The order in which the collected map is walked misses nothing and adds nothing.
  abbrev pub IsOrder : Type 0
  IsOrder = (cs : List ℕ) (v : ℕ) → contains v (order cs) ≡ contains v cs

  -- Whatever the order of Go's map, when the call reports success, the blocks that the root's links
  -- lead to are gone and every other block is as before.
  pub remove_dag_node_removes :
      IsOrder
      → (blocks : Blocks) (root v : ℕ) → (remove_dag_node p order fuel blocks root).1 ≡ deleted
      → let blocks' = (remove_dag_node p order fuel blocks root).0 in
        (Reach (p.links blocks) root v → p.has blocks' v ≡ false)
        × (¬ Reach (p.links blocks) root v → p.has blocks' v ≡ p.has blocks v)
  unfolding remove_dag_node
  remove_dag_node_removes ord blocks root v e =
      by_collected (collect_dag_nodes (p.links blocks) fuel root)
        (collect_dag_nodes-IsReachable (p.links blocks) root fuel) e
    where
      by_collected :
          (r : Collected)
          → IsReachable (p.links blocks) root r
          → (remove_collected p order fuel blocks r).1 ≡ deleted
          → let blocks' = (remove_collected p order fuel blocks r).0 in
            (Reach (p.links blocks) root v → p.has blocks' v ≡ false)
            × (¬ Reach (p.links blocks) root v → p.has blocks' v ≡ p.has blocks v)
      by_collected (nodes cs) all h =
          let gone = has-delete_blocks blocks (order cs) v h in
          (
            λ r. gone ∙ rw (ord cs v, (all.0 v).1 r) (ground arith),
            λ n. elim (Bool-cases (contains v cs)) [
              | inl hit ↦ absurd (n ((all.0 v).0 hit))
              | inr miss ↦ gone ∙ rw (ord cs v, miss) (ground arith)
            ],
          )
      by_collected get_failed all h = cc
      by_collected out_of_fuel all h = cc
