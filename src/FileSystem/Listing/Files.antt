-- ===== src/FileSystem/Listing/Files.antt =====
-- `ListFiles` lists every contract, and `ProcessFiles` visits what it lists
-- (file_system/file_system.go).
use sequoia.Prelude.{true, List, [], ◌∷◌, ◌≡◌, refl, Option, none, some, ◌⊎◌, inl, inr, drop}
use mathlib.Core.List.{foldl}
use sequoia.Prelude.Bytes.{Bytes, has_prefix}
use sequoia.FileSystem.Keys.{
  Contract, Parsed, parsed, bad_merkle, bad_start, index_panic, split_merkle, IsPlain, tree_key,
  tree_prefix, split_merkle-tree_key,
}
use sequoia.FileSystem.Stores.{Badger, Item, Lists, found}
use sequoia.FileSystem.Listing.{
  Listing, listed, list_failed, list_panic, cons_listing, by_parsed, by_value, list_items,
  Processed, processed, process_failed, process_panic, process_items, process_parsed, process_value,
  list_files, process_files,
}

-- The contract is one of the list.
abbrev pub Among : Contract → List Contract → Type 0
Among c [] = ⊥
Among c (d ∷ ds) = (c ≡ d) ⊎ Among c ds

-- A list that was read whole has the contract of each item's key.
abbrev Holds : Contract → Listing → Type 0
Holds c (listed cs) = Among c cs
Holds c (list_failed cs) = Unit {0}
Holds c list_panic = Unit {0}

Holds-head : (c : Contract) (rest : Listing) → Holds c (cons_listing c rest)
Holds-head c (listed cs) = inl refl
Holds-head c (list_failed cs) = tt
Holds-head c list_panic = tt

Holds-tail : (c d : Contract) (rest : Listing) → Holds c rest → Holds c (cons_listing d rest)
Holds-tail c d (listed cs) h = inr h
Holds-tail c d (list_failed cs) h = tt
Holds-tail c d list_panic h = tt

Holds-here :
    (c : Contract) (v : Option Bytes) (key : Bytes) (rest : Listing)
    → split_merkle (drop 5 key) ≡ parsed c
    → Holds c (by_value v key rest)
Holds-here c none key rest e = tt
Holds-here c (some v) key rest e = rw e (Holds-head c rest)

Holds-there :
    (c : Contract) (v : Option Bytes) (p : Parsed) (rest : Listing)
    → Holds c rest
    → Holds c (by_parsed p rest)
Holds-there c v (parsed d) rest h = Holds-tail c d rest h
Holds-there c v bad_merkle rest h = tt
Holds-there c v bad_start rest h = tt
Holds-there c v index_panic rest h = tt

Holds-value :
    (c : Contract) (v : Option Bytes) (key : Bytes) (rest : Listing)
    → Holds c rest
    → Holds c (by_value v key rest)
Holds-value c none key rest h = tt
Holds-value c (some v) key rest h = Holds-there c (some v) (split_merkle (drop 5 key)) rest h

list_items-Holds :
    (c : Contract) (k : Bytes) (is : List Item)
    → split_merkle (drop 5 k) ≡ parsed c
    → Lists k is
    → Holds c (list_items is)
unfolding list_items
list_items-Holds c k [] e h = absurd h
list_items-Holds c k (i ∷ is) e (inl same) = Holds-here c i.val i.key (list_items is) (rw same e)
list_items-Holds c k (i ∷ is) e (inr later) =
    Holds-value c i.val i.key (list_items is) (list_items-Holds c k is e later)

tree_key-has_prefix :
    (c : Contract) → has_prefix (tree_key c.merkle c.owner c.start) tree_prefix ≡ true
unfolding tree_key has_prefix
tree_key-has_prefix c = refl

-- When `ListFiles` returns no error, every contract with a tree in the database is in its list, if
-- its root is bytes, its owner has no slash and its start is an int64.
pub list_files_complete :
    (b : Badger) (db : b.Db) (c : Contract) (tree : Bytes) (cs : List Contract)
    → IsPlain c
    → b.get (b.begin db) (tree_key c.merkle c.owner c.start) ≡ found tree
    → list_files b db ≡ listed cs
    → Among c cs
unfolding list_files
list_files_complete b db c tree cs plain e all =
    let k = tree_key c.merkle c.owner c.start in
    let h : Holds c (list_items (b.iterate db tree_prefix)) =
      list_items-Holds c k (b.iterate db tree_prefix) (split_merkle-tree_key c plain)
        (b.iterate_all db tree_prefix k tree e (tree_key-has_prefix c)) in
    rw all at h

-- The state that the callback reaches over what a list holds.
abbrev pub visited {ℓ} : {S : Type ℓ} → (Contract → S → S) → S → Listing → Processed S
visited fn s (listed cs) = processed (foldl (λ t c. fn c t) s cs)
visited fn s (list_failed cs) = process_failed (foldl (λ t c. fn c t) s cs)
visited fn s list_panic = process_panic

process_parsed-visited {ℓ} :
    {S : Type ℓ} (fn : Contract → S → S) (s : S) (p : Parsed) (go : S → Processed S)
    (rest : Listing)
    → ((t : S) → go t ≡ visited fn t rest)
    → process_parsed fn s p go ≡ visited fn s (by_parsed p rest)
unfolding process_parsed
process_parsed-visited fn s (parsed c) go (listed cs) h = h (fn c s)
process_parsed-visited fn s (parsed c) go (list_failed cs) h = h (fn c s)
process_parsed-visited fn s (parsed c) go list_panic h = h (fn c s)
process_parsed-visited fn s bad_merkle go rest h = refl
process_parsed-visited fn s bad_start go rest h = refl
process_parsed-visited fn s index_panic go rest h = refl

process_value-visited {ℓ} :
    {S : Type ℓ} (fn : Contract → S → S) (s : S) (v : Option Bytes) (key : Bytes)
    (go : S → Processed S) (rest : Listing)
    → ((t : S) → go t ≡ visited fn t rest)
    → process_value fn s v key go ≡ visited fn s (by_value v key rest)
unfolding process_value
process_value-visited fn s none key go rest h = refl
process_value-visited fn s (some v) key go rest h =
    process_parsed-visited fn s (split_merkle (drop 5 key)) go rest h

process_items-visited {ℓ} :
    {S : Type ℓ} (fn : Contract → S → S) (is : List Item) (s : S)
    → process_items fn is s ≡ visited fn s (list_items is)
unfolding process_items list_items
process_items-visited fn [] s = refl
process_items-visited fn (i ∷ is) s =
    process_value-visited fn s i.val i.key (process_items fn is) (list_items is)
      (process_items-visited fn is)

-- `ProcessFiles` calls its callback for exactly the contracts that `ListFiles` returns, in that
-- order, also up to an error, and fails as `ListFiles` does.
pub process_files_visits {ℓ} :
    {S : Type ℓ} (b : Badger) (fn : Contract → S → S) (db : b.Db) (s : S)
    → process_files b fn db s ≡ visited fn s (list_files b db)
unfolding process_files list_files
process_files_visits b fn db s = process_items-visited fn (b.iterate db tree_prefix) s
