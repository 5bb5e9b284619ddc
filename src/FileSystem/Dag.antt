-- ===== src/FileSystem/Dag.antt =====
-- `collectDAGNodes` (file_system/file_system.go): the blocks below a root, breadth first. The
-- blocks are third-party: `links` is what `dagService.Get` and `Links` give for a CID, or nothing on
-- an error. A CID is only compared, and is a number here.
pub mod Complete
pub mod Total
use sequoia.Prelude.{
  ℕ, zero, suc, ◌+◌, if◌then◌else◌, Bool, true, false, not, List, [], ◌∷◌, ◌++◌, ◌≡◌, Option, none,
  some, contains,
}

-- The loop's queue after a node was read: its links that are not visited go to the end.
unfoldable pub enqueue_links : List ℕ → List ℕ → List ℕ → List ℕ
enqueue_links visited [] to_visit = to_visit
enqueue_links visited (l ∷ ls) to_visit =
    enqueue_links visited ls (if contains l visited then to_visit else to_visit ++ l ∷ [])

pub data Collected : Type 0 where
  nodes : List ℕ → Collected
  get_failed out_of_fuel : Collected

module _ (links : ℕ → Option (List ℕ)) where
  -- `fuel` bounds the rounds of the loop.
  unfoldable pub collect_loop : ℕ → List ℕ → List ℕ → Collected
  collect_loop zero [] visited = nodes visited
  collect_loop zero (c ∷ rest) visited = out_of_fuel
  collect_loop (suc fuel) [] visited = nodes visited
  collect_loop (suc fuel) (c ∷ rest) visited = elim (contains c visited) [
    | true ↦ collect_loop fuel rest visited
    | false ↦ elim (links c) [
      | none ↦ get_failed
      | some ls ↦ collect_loop fuel (enqueue_links (c ∷ visited) ls rest) (c ∷ visited)
    ]
  ]

  unfoldable pub collect_dag_nodes : ℕ → ℕ → Collected
  unfolding collect_loop
  collect_dag_nodes fuel root = collect_loop fuel (root ∷ []) []

  -- The nodes that the links lead to.
  pub data Reach (root : ℕ) : ℕ → Type 0 where
    here : Reach root root
    step :
        {u v : ℕ} {ls : List ℕ}
        → Reach root u
        → links u ≡ some ls
        → contains v ls ≡ true
        → Reach root v
