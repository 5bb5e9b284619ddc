-- ===== src/Api/Paths/Slashes.antt =====
-- The slashes of a path (`FindFileHandler` of api/file_handler.go).
use sequoia.Prelude.{
  Bool, List, [], ◌∷◌, ◌++◌, ◌≡◌, refl, ◌∙◌, ap, sym, Option, none, some, append-nil,
}
use sequoia.Prelude.Bytes.{Bytes}
use sequoia.Prelude.Bytes.Hex.{hex_decode}
use sequoia.Prelude.Bytes.Split.{split}
use sequoia.Prelude.Bytes.Join.{split_at}
use sequoia.FileSystem.Keys.{slash}
use sequoia.FileSystem.Stores.{Badger, Ipfs, World}
use sequoia.Api.Paths.{
  Served, Gateway, or_merkle, filtered, names, find_names, find_root, find_file_handler,
}

filtered-append : (ps qs : List Bytes) → filtered (ps ++ qs) ≡ filtered ps ++ filtered qs
unfolding filtered
filtered-append [] qs = refl
filtered-append ([] ∷ ps) qs = filtered-append ps qs
filtered-append ((c ∷ s) ∷ ps) qs = ap (λ l. (c ∷ s) ∷ l) (filtered-append ps qs)

names_at : (s t : Bytes) → names (s ++ (slash ∷ t)) ≡ names s ++ names t
names_at s t = ap filtered (split_at slash s t) ∙ filtered-append (split slash s) (split slash t)

names_nil : names [] ≡ []
unfolding filtered split
names_nil = refl

names_first : (t : Bytes) → names (slash ∷ t) ≡ names t
names_first t = names_at [] t ∙ ap (λ l. l ++ names t) names_nil

names_last : (s : Bytes) → names (s ++ (slash ∷ [])) ≡ names s
names_last s = names_at s [] ∙ ap (λ l. names s ++ l) names_nil ∙ append-nil (names s)

names_twice : (s t : Bytes) → names (s ++ (slash ∷ (slash ∷ t))) ≡ names (s ++ (slash ∷ t))
names_twice s t =
    names_at s (slash ∷ t) ∙ ap (λ l. names s ++ l) (names_first t) ∙ sym (names_at s t)

module _ (b : Badger) (p : Ipfs) (g : Gateway p.Blocks) (w : World b.Db p.Blocks) where
  module _ (merkle file_name current : Bytes) (raw : Bool) where
    abbrev pub At : Bytes → Served
    At path = find_file_handler b p g w merkle path file_name current raw

    find_root_same :
        (path path' name : Bytes) (o : Option Bytes)
        → names path ≡ names path'
        → find_root b p g w path name current raw o ≡ find_root b p g w path' name current raw o
    unfolding find_root
    find_root_same path path' name none e = refl
    find_root_same path path' name (some root) e = ap (find_names b p g w root name current raw) e

    same_names : (path path' : Bytes) → names path ≡ names path' → At path ≡ At path'
    unfolding find_file_handler
    same_names path path' e =
        find_root_same path path' (or_merkle file_name merkle) (hex_decode merkle) e

    -- A slash at the start or at the end of a path, and a slash after a slash, make no difference to
    -- what is served.
    pub find_file_slashes :
        (s t : Bytes)
        → (At (slash ∷ s) ≡ At s)
          × (At (s ++ (slash ∷ [])) ≡ At s)
          × (At (s ++ (slash ∷ (slash ∷ t))) ≡ At (s ++ (slash ∷ t)))
    find_file_slashes s t = (
      same_names (slash ∷ s) s (names_first s),
      same_names (s ++ (slash ∷ [])) s (names_last s),
      same_names (s ++ (slash ∷ (slash ∷ t))) (s ++ (slash ∷ t)) (names_twice s t),
    )
