-- ===== src/FileSystem/Dag/Total.antt =====
-- `collectDAGNodes` (file_system/file_system.go) ends: each round takes an entry off the queue, and
-- a node's links are appended once.
use sequoia.Prelude.{
  ℕ, zero, suc, ◌+◌, ◌≤◌, ◌==◌, if◌then◌else◌, true, false, List, [], ◌∷◌, ◌++◌, ◌≡◌, ◌≢◌, refl,
  Option, none, some, arith, contains, length, length-append, Bool-cases, Option-cases, inl, inr,
}
use sequoia.FileSystem.Dag
use sequoia.FileSystem.Dag.{
  enqueue_links, Collected, nodes, get_failed, out_of_fuel, collect_loop, collect_dag_nodes, Reach,
}
use sequoia.FileSystem.Dag.Complete.{
  IsReachable, collect_dag_nodes-IsReachable, contains-enqueue_links,
}

length-enqueue_links-le :
    (visited ls to_visit : List ℕ)
    → length (enqueue_links visited ls to_visit) ≤ length to_visit + length ls
unfolding enqueue_links
length-enqueue_links-le visited [] to_visit = omega arith
length-enqueue_links-le visited (l ∷ ls) to_visit = elim (Bool-cases (contains l visited)) [
  | inl old ↦ rw old (omega (arith, length-enqueue_links-le visited ls to_visit))
  | inr new ↦ rw new (
      omega (
        arith,
        length-enqueue_links-le visited ls (to_visit ++ l ∷ []),
        length-append to_visit (l ∷ []),
      ))
]

module _ (links : ℕ → Option (List ℕ)) where
  abbrev pub degree : Option (List ℕ) → ℕ
  degree none = 0
  degree (some ls) = length ls

  -- The links of all the nodes of a list, and of those that are not visited.
  abbrev pub total_degree : List ℕ → ℕ
  total_degree [] = 0
  total_degree (u ∷ us) = degree (links u) + total_degree us

  abbrev weight : List ℕ → List ℕ → ℕ
  weight visited [] = 0
  weight visited (u ∷ us) = (if contains u visited then 0 else degree (links u)) + weight visited us

  weight-nil : (us : List ℕ) → weight [] us ≡ total_degree us
  weight-nil [] = refl
  weight-nil (u ∷ us) = omega (arith, weight-nil us)

  weight-cons-le : (c : ℕ) (visited us : List ℕ) → weight (c ∷ visited) us ≤ weight visited us
  weight-cons-le c visited [] = omega arith
  weight-cons-le c visited (u ∷ us) = ground (arith, weight-cons-le c visited us)

  weight-cons :
      (c : ℕ) (visited us : List ℕ)
      → contains c us ≡ true
      → contains c visited ≡ false
      → weight (c ∷ visited) us + degree (links c) ≤ weight visited us
  weight-cons c visited [] h k = cc
  weight-cons c visited (u ∷ us) h k = elim (Bool-cases (c == u)) [
    | inl same ↦
        let e : c ≡ u = ground arith in rw (← e) (ground (arith, weight-cons-le c visited us))
    | inr other ↦ ground (arith, weight-cons c visited us)
  ]

  -- A finite list of nodes that the links do not leave.
  abbrev pub IsClosed : List ℕ → Type 0
  IsClosed us =
      (u : ℕ) (ls : List ℕ) (v : ℕ)
      → contains u us ≡ true
      → links u ≡ some ls
      → contains v ls ≡ true
      → contains v us ≡ true

  collect_loop-ends :
      (us : List ℕ)
      → IsClosed us
      → (fuel : ℕ) (to_visit visited : List ℕ)
      → ((v : ℕ) → contains v to_visit ≡ true → contains v us ≡ true)
      → length to_visit + weight visited us ≤ fuel
      → collect_loop links fuel to_visit visited ≢ out_of_fuel
  unfolding collect_loop
  collect_loop-ends us cl zero [] visited sub m = λ e. cc
  collect_loop-ends us cl zero (c ∷ rest) visited sub m = absurd (omega arith)
  collect_loop-ends us cl (suc fuel) [] visited sub m = λ e. cc
  collect_loop-ends us cl (suc fuel) (c ∷ rest) visited sub m =
      elim (Bool-cases (contains c visited)) [
        | inl old ↦
            rw (old, Dag.collect_loop)
              (collect_loop-ends us cl fuel rest visited (λ v h. sub v (ground arith))
                (omega arith))
        | inr new ↦ elim (Option-cases (links c)) [
          | inl missing ↦ rw (new, missing, Dag.collect_loop) (λ e. cc)
          | inr (ls, e) ↦
              rw (new, e, Dag.collect_loop)
                (collect_loop-ends us cl fuel (enqueue_links (c ∷ visited) ls rest) (c ∷ visited)
                  (λ v h. ground (
                    arith,
                    sub v,
                    cl c ls v (sub c (ground arith)) e,
                    contains-enqueue_links v (c ∷ visited) ls rest,
                  ))
                  (let d : degree (links c) ≡ length ls = rw e in
                    omega (
                      arith,
                      weight-cons c visited us (sub c (ground arith)) new,
                      length-enqueue_links-le (c ∷ visited) ls rest,
                    )))
        ]
      ]

  -- Over blocks whose links stay within a finite list that holds the root, one round more than the
  -- list has links is fuel enough: the function returns, either exactly the nodes that the links
  -- lead to from the root, each of which it read, or the error of a reachable node that cannot be read.
  pub collect_dag_nodes_total :
      (us : List ℕ) (root fuel : ℕ)
      → IsClosed us
      → contains root us ≡ true
      → suc (total_degree us) ≤ fuel
      → (collect_dag_nodes links fuel root ≢ out_of_fuel)
        × IsReachable links root (collect_dag_nodes links fuel root)
  collect_dag_nodes_total us root fuel cl r m = (
    unfold collect_dag_nodes in
        collect_loop-ends us cl fuel (root ∷ []) [] (λ v h. only v h)
          (omega (arith, weight-nil us)),
    collect_dag_nodes-IsReachable links root fuel,
  )
    where
      only : (v : ℕ) → contains v (root ∷ []) ≡ true → contains v us ≡ true
      only v h = let e : v ≡ root = ground arith in rw e r
