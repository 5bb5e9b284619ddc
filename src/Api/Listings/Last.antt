-- ===== src/Api/Listings/Last.antt =====
-- What `MapCids` (file_system/ipfs.go) keeps of roots with one CID, and what `Dump`
-- (file_system/file_system.go) shows.
use sequoia.Prelude.{
  if◌then◌else◌, Bool, true, false, List, [], ◌∷◌, Option, none, some, ◌≡◌, refl, ◌∙◌, ap,
  Bool-cases, inl, inr,
}
use sequoia.Prelude.Bytes.{Bytes, bytes_equal, bytes_equal→eq}
use sequoia.FileSystem.Stores.{Item}
use sequoia.Api.Listings.{put, lookup, root_text, put_value, map_items}

-- The root of the last item with this CID.
unfoldable pub last_root : Bytes → List Item → Option Bytes → Option Bytes
last_root c [] before = before
last_root c (i ∷ is) before =
    last_root c is (elim i.val [
      | none ↦ before
      | some v ↦ if bytes_equal c v then some (root_text i) else before
    ])

twice {ℓ} :
    {A : Type ℓ} (b : Bool) (x y z : A)
    → (if b then x else y) ≡ (if b then x else if b then z else y)
twice true x y z = refl
twice false x y z = refl

either {ℓ} :
    {A : Type ℓ} (a b : Bool) (x y z : A)
    → (a ≡ true → b ≡ true → x ≡ y)
    → (if a then x else if b then y else z) ≡ (if b then y else if a then x else z)
either true true x y z same = same refl refl
either true false x y z same = refl
either false true x y z same = refl
either false false x y z same = refl

same_key :
    (j i k : Bytes) → bytes_equal j i ≡ true → bytes_equal j k ≡ true → bytes_equal i k ≡ true
same_key j i k ji jk = rw (bytes_equal→eq j i ji) at jk

lookup-put :
    (j k v : Bytes) (m : List (Bytes × Bytes))
    → lookup j (put k v m) ≡ (if bytes_equal j k then some v else lookup j m)
unfolding lookup put
lookup-put j k v [] = refl
lookup-put j k v ((i, w) ∷ m) = elim (Bool-cases (bytes_equal i k)) [
  | inl e ↦
      rw e (rw (bytes_equal→eq i k e) (twice (bytes_equal j k) (some v) (lookup j m) (some w)))
  | inr e ↦
      rw (e, lookup-put j k v m)
        (either (bytes_equal j i) (bytes_equal j k) (some w) (some v) (lookup j m)
          (λ ji jk. let both = same_key j i k ji jk in cc))
]

last_step :
    (c : Bytes) (i : Item) (is : List Item) (m m' : List (Bytes × Bytes)) (o : Option Bytes)
    → i.val ≡ o
    → ((m1 : List (Bytes × Bytes))
        → map_items is m1 ≡ some m'
        → lookup c m' ≡ last_root c is (lookup c m1))
    → (elim (put_value o (root_text i) m) [ none ↦ none | some m1 ↦ map_items is m1 ]) ≡ some m'
    → lookup c m'
      ≡ last_root c is (elim o [
        | none ↦ lookup c m
        | some v ↦ if bytes_equal c v then some (root_text i) else lookup c m
      ])
last_step c i is m m' none e ih h = cc
last_step c i is m m' (some v) e ih h =
    ih (put v (root_text i) m) h ∙ ap (last_root c is) (lookup-put c v (root_text i) m)

-- `MapCids` gives for each CID the root of the last of the entries that have it, so that of several
-- files with the same data only one root is in the answer; other CIDs are as before.
pub map_items_last :
    (c : Bytes) (is : List Item) (m m' : List (Bytes × Bytes))
    → map_items is m ≡ some m'
    → lookup c m' ≡ last_root c is (lookup c m)
unfolding map_items last_root
map_items_last c [] m m' h = let e : m ≡ m' = cc in rw e refl
map_items_last c (i ∷ is) m m' h =
    last_step c i is m m' i.val refl (λ m1 e. map_items_last c is m1 m' e) h
