-- ===== src/FileSystem/Listing/Unused.antt =====
-- What `ListUnusedCids` (file_system/ipfs.go) reports.
use sequoia.Prelude.{
  ℕ, suc, ◌≤◌, ◌≢◌, ◌++◌, ◌==◌, true, not, ◌&&◌, List, [], ◌∷◌, ◌≡◌, ◌↔◌, refl, ◌∙◌, Option, none,
  some, ◌⊎◌, inl, inr, arith, contains, contains-append, Bool-cases,
}
use sequoia.Prelude.Bytes.{Bytes}
use sequoia.FileSystem.Dag.{Collected, nodes, get_failed, out_of_fuel, collect_dag_nodes, Reach}
use sequoia.FileSystem.Dag.Complete.{IsReachable}
use sequoia.FileSystem.Dag.Total.{IsClosed, total_degree, collect_dag_nodes_total}
use sequoia.FileSystem.Stores.{Badger, Ipfs, World}
use sequoia.FileSystem.Listing.{
  unused, dedup, not_in, collected_or_none, list_cids, root_nodes, referenced, list_unused_cids,
  unused_of, unused_among,
}

contains-dedup : (v : ℕ) (cs : List ℕ) → contains v (dedup cs) ≡ contains v cs
unfolding dedup
contains-dedup v [] = refl
contains-dedup v (c ∷ cs) = elim (Bool-cases (contains c (dedup cs))) [
  | inl seen ↦ rw seen (elim (Bool-cases (v == c)) [
    | inl same ↦ let e : v ≡ c = ground arith in rw e (seen ∙ ground arith)
    | inr other ↦ contains-dedup v cs ∙ ground arith
  ])
  | inr new ↦ rw new (ground (arith, contains-dedup v cs))
]

contains-not_in :
    (v : ℕ) (seen cs : List ℕ)
    → contains v (not_in seen cs) ≡ (contains v cs && not (contains v seen))
unfolding not_in
contains-not_in v seen [] = refl
contains-not_in v seen (c ∷ cs) = elim (Bool-cases (v == c)) [
  | inl same ↦ let e : v ≡ c = ground arith in rw e (ground (arith, contains-not_in c seen cs))
  | inr other ↦ ground (arith, contains-not_in v seen cs)
]

-- All that a root leads to can be read.
abbrev pub IsReadable : (ℕ → Option (List ℕ)) → ℕ → Type 0
IsReadable links root = (v : ℕ) → Reach links root v → links v ≢ none

module _ (b : Badger) (p : Ipfs) where
  -- A recorded root whose whole DAG can be read leads to the block.
  abbrev pub Refers : p.Blocks → List Bytes → ℕ → Type 0
  Refers blocks [] v = ⊥
  Refers blocks (s ∷ ss) v =
      ((root : ℕ) × (p.decode_cid s ≡ some root)
        × IsReadable (p.links blocks) root
        × Reach (p.links blocks) root v)
      ⊎ Refers blocks ss v

  -- The recorded roots are in the list.
  abbrev pub RootsIn : List ℕ → List Bytes → Type 0
  RootsIn us [] = Unit {0}
  RootsIn us (s ∷ ss) =
      ((root : ℕ) → p.decode_cid s ≡ some root → contains root us ≡ true) × RootsIn us ss

  module _ (blocks : p.Blocks) (us : List ℕ) (closed : IsClosed (p.links blocks) us) (fuel : ℕ)
      (enough : suc (total_degree (p.links blocks) us) ≤ fuel) where
    -- One recorded text leads to the block.
    abbrev RefersFrom : Option ℕ → ℕ → Type 0
    RefersFrom o v =
        (root : ℕ) × (o ≡ some root)
        × IsReadable (p.links blocks) root
        × Reach (p.links blocks) root v

    -- The blocks of one recorded text, or of all.
    abbrev Collects : Option (List ℕ) → (ℕ → Type 0) → Type 0
    Collects o P = (cs : List ℕ) × (o ≡ some cs) × ((v : ℕ) → (contains v cs ≡ true) ↔ P v)

    collected-Collects :
        (root : ℕ) (r : Collected)
        → r ≢ out_of_fuel
        → IsReachable (p.links blocks) root r
        → Collects (collected_or_none r) (RefersFrom (some root))
    collected-Collects root (nodes cs) ends (all, read) = (
      cs,
      refl,
      λ v. (
        λ h. (root, refl, (λ u r e. let (ls, k) = read u r in cc), (all v).0 h),
        λ (root', e, readable, r). let same : root ≡ root' = cc in (all v).1 (rw same r),
      ),
    )
    collected-Collects root get_failed ends (c, r, missing) = (
      [],
      refl,
      λ v. (
        λ h. cc,
        λ (root', e, readable, r').
            let same : root ≡ root' = cc in absurd (readable c (rw (← same) r) missing),
      ),
    )
    collected-Collects root out_of_fuel ends h = absurd (ends refl)

    root_nodes-Collects :
        (o : Option ℕ)
        → ((root : ℕ) → o ≡ some root → contains root us ≡ true)
        → Collects (root_nodes b p fuel blocks o) (RefersFrom o)
    unfolding root_nodes
    root_nodes-Collects none h = ([], refl, λ v. ((λ k. cc), λ (root, e, readable, r). cc))
    root_nodes-Collects (some root) h =
        let (ends, reaches) =
          collect_dag_nodes_total (p.links blocks) us root fuel closed (h root refl) enough in
        collected-Collects root (collect_dag_nodes (p.links blocks) fuel root) ends reaches

    referenced-Collects :
        (ss : List Bytes)
        → RootsIn us ss
        → Collects (referenced b p fuel blocks ss) (Refers blocks ss)
    unfolding referenced
    referenced-Collects [] h = ([], refl, λ v. ((λ k. cc), λ r. absurd r))
    referenced-Collects (s ∷ ss) (here, h) =
        let (cs, e, now) = root_nodes-Collects (p.decode_cid s) here in
        let (ds, f, later) = referenced-Collects ss h in
        (
          cs ++ ds,
          rw (e, f) refl,
          λ v.
              let split = contains-append v cs ds in
              (
                λ k. elim (Bool-cases (contains v cs)) [
                  | inl at_once ↦ inl ((now v).0 at_once)
                  | inr other ↦ inr ((later v).0 (ground (arith, split)))
                ],
                elim [
                  | inl r ↦ rw (split, (now v).1 r) refl
                  | inr r ↦ let m = (later v).1 r in ground (arith, split)
                ],
              ),
        )

  -- Over blocks whose links stay within a finite list that has the recorded roots, and with one round
  -- more than that list has links: when the recorded roots and the keys of the block store can be
  -- listed, the function reports exactly the keys to which no recorded root leads that is a CID and
  -- whose whole DAG can be read.
  pub list_unused_cids_exact :
      (fuel : ℕ) (w : World b.Db p.Blocks) (us : List ℕ) (roots : List Bytes) (keys : List ℕ)
      → IsClosed (p.links w.blocks) us
      → suc (total_degree (p.links w.blocks) us) ≤ fuel
      → RootsIn us roots
      → list_cids b p fuel w.db ≡ some roots
      → p.all_keys w.blocks ≡ some keys
      → (cids : List ℕ) × (list_unused_cids b p fuel w ≡ unused cids)
        × ((v : ℕ)
            → (contains v cids ≡ true) ↔ ((contains v keys ≡ true) × ¬ Refers w.blocks roots v))
  unfolding list_unused_cids unused_of unused_among
  list_unused_cids_exact fuel w us roots keys closed enough within e f =
      let (refs, k, leads) = referenced-Collects w.blocks us closed fuel enough roots within in
      (
        not_in refs (dedup keys),
        rw (e, f, k) refl,
        λ v.
            let count = contains-not_in v refs (dedup keys) in
            let all = contains-dedup v keys in
            (
              λ h. (
                ground (arith, count, all),
                λ r. let seen = (leads v).1 r in absurd (ground (arith, count)),
              ),
              λ (listed, free). elim (Bool-cases (contains v refs)) [
                | inl seen ↦ absurd (free ((leads v).0 seen))
                | inr unseen ↦ ground (arith, count, all)
              ],
            ),
      )
