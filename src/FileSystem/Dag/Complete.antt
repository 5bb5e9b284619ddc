-- ===== src/FileSystem/Dag/Complete.antt =====
-- What `collectDAGNodes` (file_system/file_system.go) collects is what the links lead to.
use sequoia.Prelude.{
  ℕ, zero, suc, ◌==◌, true, not, ◌&&◌, ◌||◌, List, [], ◌∷◌, ◌≡◌, ◌↔◌, refl, ◌∙◌, Option, none, some,
  arith, contains, contains-append, Bool-cases, Option-cases, inl, inr,
}
use sequoia.FileSystem.Dag
use sequoia.FileSystem.Dag.{
  enqueue_links, Collected, nodes, get_failed, out_of_fuel, collect_loop, collect_dag_nodes, Reach,
}

pub contains-enqueue_links :
    (v : ℕ) (visited ls to_visit : List ℕ)
    → contains v (enqueue_links visited ls to_visit)
      ≡ (contains v to_visit || (contains v ls && not (contains v visited)))
unfolding enqueue_links
contains-enqueue_links v visited [] to_visit = ground arith
contains-enqueue_links v visited (l ∷ ls) to_visit = elim (Bool-cases (v == l)) [
  | inl same ↦
      let e : v ≡ l = ground arith in
      rw e (
        contains-enqueue_links l visited ls _ ∙ ground (arith, contains-append l to_visit (l ∷ [])))
  | inr other ↦
      contains-enqueue_links v visited ls _ ∙ ground (arith, contains-append v to_visit (l ∷ []))
]

module _ (links : ℕ → Option (List ℕ)) (root : ℕ) where
  -- Between two rounds.
  record Inv (to_visit visited : List ℕ) : Type 0 where
    queued_reached : (v : ℕ) → contains v to_visit ≡ true → Reach links root v
    visited_reached : (v : ℕ) → contains v visited ≡ true → Reach links root v
    closed :
        (u : ℕ)
        → contains u visited ≡ true
        → (ls : List ℕ) × (links u ≡ some ls)
          × ((v : ℕ) → contains v ls ≡ true → (contains v visited || contains v to_visit) ≡ true)
    root_in : (contains root visited || contains root to_visit) ≡ true

  -- What a result says.
  abbrev pub IsReachable : Collected → Type 0
  IsReachable (nodes vs) =
      ((v : ℕ) → (contains v vs ≡ true) ↔ Reach links root v)
      × ((v : ℕ) → Reach links root v → (ls : List ℕ) × (links v ≡ some ls))
  IsReachable get_failed = (c : ℕ) × Reach links root c × (links c ≡ none)
  IsReachable out_of_fuel = Unit {0}

  reached_visited :
      {v : ℕ} (visited : List ℕ) → Inv [] visited → Reach links root v → contains v visited ≡ true
  reached_visited visited i Reach.here = ground (arith, i.root_in)
  reached_visited visited i (Reach.step {u = u} {v = v} {ls = ls} r e h) =
      let (ms, f, all) = i.closed u (reached_visited visited i r) in
      let same : ms ≡ ls = cc in ground (arith, all v (rw same h))

  done : (visited : List ℕ) → Inv [] visited → IsReachable (nodes visited)
  done visited i = (
    λ v. (i.visited_reached v, reached_visited visited i),
    λ v r. let (ls, e, all) = i.closed v (reached_visited visited i r) in (ls, e),
  )

  forget :
      (c : ℕ) (rest visited : List ℕ) (v : ℕ)
      → contains c visited ≡ true
      → (contains v visited || contains v (c ∷ rest)) ≡ true
      → (contains v visited || contains v rest) ≡ true
  forget c rest visited v h k = elim (Bool-cases (v == c)) [
    | inl same ↦ let e : v ≡ c = ground arith in rw (e, h) refl
    | inr other ↦ ground arith
  ]

  skip-Inv :
      (c : ℕ) (rest visited : List ℕ)
      → contains c visited ≡ true
      → Inv (c ∷ rest) visited
      → Inv rest visited
  skip-Inv c rest visited h i = record {
    queued_reached = λ v k. i.queued_reached v (ground arith);
    visited_reached = i.visited_reached;
    closed = λ u k.
        let (ls, e, all) = i.closed u k in (ls, e, λ v m. forget c rest visited v h (all v m));
    root_in = forget c rest visited root h i.root_in;
  }

  visit-Inv :
      (c : ℕ) (rest visited ls : List ℕ)
      → links c ≡ some ls
      → Inv (c ∷ rest) visited
      → Inv (enqueue_links (c ∷ visited) ls rest) (c ∷ visited)
  visit-Inv c rest visited ls e i = record {
    queued_reached = λ v k. elim (Bool-cases (contains v rest)) [
      | inl old ↦ i.queued_reached v (ground arith)
      | inr new ↦
          Reach.step (i.queued_reached c (ground arith)) e
            (ground (arith, contains-enqueue_links v (c ∷ visited) ls rest))
    ];
    visited_reached = λ v k. elim (Bool-cases (v == c)) [
      | inl same ↦ let at_c : v ≡ c = ground arith in rw at_c (i.queued_reached c (ground arith))
      | inr other ↦ i.visited_reached v (ground arith)
    ];
    closed = λ u k. elim (Bool-cases (u == c)) [
      | inl same ↦
          let at_c : u ≡ c = ground arith in
          (ls, rw at_c e, λ v m. ground (arith, contains-enqueue_links v (c ∷ visited) ls rest))
      | inr other ↦
          let (ms, f, all) = i.closed u (ground arith) in
          (ms, f, λ v m. ground (arith, all v m, contains-enqueue_links v (c ∷ visited) ls rest))
    ];
    root_in = ground (arith, i.root_in, contains-enqueue_links root (c ∷ visited) ls rest);
  }

  collect_loop-IsReachable :
      (fuel : ℕ) (to_visit visited : List ℕ)
      → Inv to_visit visited
      → IsReachable (collect_loop links fuel to_visit visited)
  unfolding collect_loop
  collect_loop-IsReachable zero [] visited i = done visited i
  collect_loop-IsReachable zero (c ∷ rest) visited i = tt
  collect_loop-IsReachable (suc fuel) [] visited i = done visited i
  collect_loop-IsReachable (suc fuel) (c ∷ rest) visited i =
      elim (Bool-cases (contains c visited)) [
        | inl old ↦
            rw (old, Dag.collect_loop)
              (collect_loop-IsReachable fuel rest visited (skip-Inv c rest visited old i))
        | inr new ↦ elim (Option-cases (links c)) [
          | inl missing ↦
              rw (new, missing, Dag.collect_loop) (c, i.queued_reached c (ground arith), missing)
          | inr (ls, e) ↦
              rw (new, e, Dag.collect_loop)
                (collect_loop-IsReachable fuel (enqueue_links (c ∷ visited) ls rest) (c ∷ visited)
                  (visit-Inv c rest visited ls e i))
        ]
      ]

  start-Inv : Inv (root ∷ []) []
  start-Inv = record {
    queued_reached = λ v k. let e : v ≡ root = ground arith in rw e Reach.here;
    visited_reached = λ v k. cc;
    closed = λ u k. cc;
    root_in = ground arith;
  }

  pub collect_dag_nodes-IsReachable : (fuel : ℕ) → IsReachable (collect_dag_nodes links fuel root)
  unfolding collect_dag_nodes
  collect_dag_nodes-IsReachable fuel = collect_loop-IsReachable fuel (root ∷ []) [] start-Inv
