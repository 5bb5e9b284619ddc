-- ===== src/Examples/Stores.antt =====
-- A database, a block store and a Merkle tree that have the laws of FileSystem/Stores, to run the
-- file system on.
use sequoia.Prelude.{
  ℕ, zero, suc, ◌==◌, if◌then◌else◌, Bool, true, false, not, ◌&&◌, ◌||◌, List, [], ◌∷◌, ◌++◌, map,
  ◌≡◌, refl, sym, ◌∙◌, ap, Option, none, some, ◌⊎◌, inl, inr, arith, contains, Bool-cases,
}
use sequoia.Prelude.Int.{pos_part}
use sequoia.Prelude.Bytes.{Bytes, bytes_equal, bytes_equal_refl, bytes_equal→eq, has_prefix}
use sequoia.FileSystem.Stores.{
  Badger, Ipfs, Merkle, MerkleLaws, IsLeaf, NeverFails, Fetch, found, not_found, Item, Lists,
}

abbrev pub Pairs : Type 0
Pairs = List (Bytes × Bytes)

unfoldable pub lookup : Pairs → Bytes → Fetch
lookup [] j = not_found
lookup ((k, v) ∷ t) j = if bytes_equal j k then found v else lookup t j

unfoldable pub remove : Pairs → Bytes → Pairs
remove [] k = []
remove ((k', v) ∷ t) k = let rest = remove t k in if bytes_equal k' k then rest else (k', v) ∷ rest

unfoldable pub items_under : Pairs → Bytes → List Item
items_under [] p = []
items_under ((k, v) ∷ t) p =
    let rest = items_under t p in
    if has_prefix k p then record { key = k; val = some v } ∷ rest else rest

pub lookup-remove :
    (t : Pairs) (k j : Bytes)
    → lookup (remove t k) j ≡ (if bytes_equal j k then not_found else lookup t j)
unfolding lookup remove
lookup-remove [] k j = ground arith
lookup-remove ((k', v) ∷ t) k j =
    let ih = lookup-remove t k j in
    elim (Bool-cases (bytes_equal k' k)) [
      | inl same ↦ let e = bytes_equal→eq k' k same in rw same (ih ∙ rw e (ground arith))
      | inr other ↦
          rw (other, ih)
            (elim (Bool-cases (bytes_equal j k')) [
              | inl first ↦
                  let apart : bytes_equal j k ≡ false = rw (bytes_equal→eq j k' first) other in
                  rw (first, apart) refl
              | inr later ↦ rw later refl
            ])
    ]

pub items_under-prefix :
    (t : Pairs) (p k : Bytes) → Lists k (items_under t p) → has_prefix k p ≡ true
unfolding items_under
items_under-prefix [] p k h = absurd h
items_under-prefix ((j, v) ∷ t) p k h = elim (Bool-cases (has_prefix j p)) [
  | inl under ↦
      let h' : (j ≡ k) ⊎ Lists k (items_under t p) = rw under at h in
      elim h' [ inl e ↦ rw (← e) under | inr later ↦ items_under-prefix t p k later ]
  | inr out ↦ items_under-prefix t p k (rw out at h)
]

pub items_under-all :
    (t : Pairs) (p k v : Bytes)
    → lookup t k ≡ found v
    → has_prefix k p ≡ true
    → Lists k (items_under t p)
unfolding items_under lookup
items_under-all [] p k v e h = cc
items_under-all ((j, u) ∷ t) p k v e h = elim (Bool-cases (bytes_equal k j)) [
  | inl same ↦
      let k≡j = bytes_equal→eq k j same in
      let under : has_prefix j p ≡ true = rw (← k≡j) h in rw under (inl (sym k≡j))
  | inr other ↦
      let later = items_under-all t p k v (rw other at e) h in
      elim (Bool-cases (has_prefix j p)) [
        | inl under ↦ rw under (inr later)
        | inr out ↦ rw out later
      ]
]

pub lookup-front :
    (k v : Bytes) (t : Pairs) (j : Bytes)
    → lookup ((k, v) ∷ t) j ≡ (if bytes_equal j k then found v else lookup t j)
unfolding lookup
lookup-front k v t j = refl

-- A list of pairs, where the latest write is in front.
abbrev pub pairs_db : Badger
pairs_db = record {
  Db = Pairs;
  Txn = Pairs;
  begin = λ t. t;
  get = lookup;
  put = λ t k v. some ((k, v) ∷ t);
  delete = λ t k. some (remove t k);
  commit = λ t. some t;
  iterate = items_under;
  get-put = λ t t' k v j e. let same : (k, v) ∷ t ≡ t' = cc in rw (← same) (lookup-front k v t j);
  get-delete = λ t t' k j e. let same : remove t k ≡ t' = cc in rw (← same) (lookup-remove t k j);
  get-commit = λ t db j e. let same : t ≡ db = cc in rw same refl;
  iterate_prefix = items_under-prefix;
  iterate_all = items_under-all;
}

pub pairs_db-NeverFails : NeverFails pairs_db
pairs_db-NeverFails = record {
  puts = λ t k v. ((k, v) ∷ t, refl);
  deletes = λ t k. (remove t k, refl);
  commits = λ t. (t, refl);
}

unfoldable pub without : List ℕ → ℕ → List ℕ
without [] c = []
without (d ∷ ds) c = let rest = without ds c in if d == c then rest else d ∷ rest

pub contains-without :
    (ds : List ℕ) (c v : ℕ) → contains v (without ds c) ≡ (contains v ds && not (v == c))
unfolding without
contains-without [] c v = refl
contains-without (d ∷ ds) c v =
    let ih = contains-without ds c v in
    elim (Bool-cases (d == c)) [
      | inl same ↦ rw same (ground (arith, ih))
      | inr other ↦ rw other (ground (arith, ih))
    ]

-- The links of a node: 1 leads to 2 and 3, 4 to 3, and 2 and 3 to nothing.
abbrev pub links_of : ℕ → List ℕ
links_of c = if c == 1 then 2 ∷ 3 ∷ [] else if c == 4 then 3 ∷ [] else []

abbrev pub link_if : Bool → ℕ → Option (List ℕ)
link_if b c = if b then some (links_of c) else none

abbrev pub head_code : Bytes → Option ℕ
head_code (c ∷ []) = some c
head_code _ = none

-- The present blocks. A file gets the CID 1, a folder the CID 4; the chunk with index i of a file is
-- the two bytes i and 7.
abbrev pub small_ipfs : Ipfs
small_ipfs = record {
  Blocks = List ℕ;
  Params = Unit {0};
  has = λ bs c. contains c bs;
  links = λ bs c. link_if (contains c bs) c;
  delete_block = λ bs c. some (without bs c);
  add_file = λ bs content params. (1 ∷ 2 ∷ 3 ∷ bs, some 1);
  add_folder = λ bs content. (4 ∷ 3 ∷ bs, some 4);
  after_broken_add = λ bs. bs;
  get_file_chunk =
      λ bs c index size. if contains c bs then some (pos_part index ∷ 7 ∷ []) else none;
  get_node_json = λ bs c. if contains c bs then some (c ∷ []) else none;
  all_keys = λ bs. some bs;
  cid_string = λ c. c ∷ [];
  decode_cid = head_code;
  decode_cid-cid_string = λ c. refl;
  has-delete_block =
      λ bs bs' c d e. let same : without bs c ≡ bs' = cc in rw (← same) (contains-without bs c d);
}

-- Each byte is moved up by one, and each leaf ends with a 0.
unfoldable pub encode : List Bytes → Bytes
encode [] = []
encode (l ∷ ls) = map suc l ++ (0 ∷ encode ls)

unfoldable pub push : ℕ → List Bytes → List Bytes
push c [] = (c ∷ []) ∷ []
push c (l ∷ ls) = (c ∷ l) ∷ ls

unfoldable pub decode : Bytes → List Bytes
decode [] = []
decode (zero ∷ s) = [] ∷ decode s
decode (suc c ∷ s) = push c (decode s)

decode_leaf : (l s : Bytes) → decode (map suc l ++ (0 ∷ s)) ≡ l ∷ decode s
unfolding decode push
decode_leaf [] s = refl
decode_leaf (c ∷ l) s = rw (decode_leaf l s) refl

pub decode-encode : (ls : List Bytes) → decode (encode ls) ≡ ls
unfolding decode encode
decode-encode [] = refl
decode-encode (l ∷ ls) = decode_leaf l (encode ls) ∙ ap (λ t. l ∷ t) (decode-encode ls)

unfoldable pub has_leaf : Bytes → List Bytes → Bool
has_leaf l [] = false
has_leaf l (x ∷ xs) = bytes_equal l x || has_leaf l xs

pub has_leaf_of : (l : Bytes) (xs : List Bytes) → IsLeaf l xs → has_leaf l xs ≡ true
unfolding has_leaf
has_leaf_of l [] h = absurd h
has_leaf_of l (x ∷ xs) (inl e) = rw e (ground (arith, bytes_equal_refl x))
has_leaf_of l (x ∷ xs) (inr h) = ground (arith, has_leaf_of l xs h)

-- A tree is the list of its leaves, its root is their encoding, and so is a proof. The hash
-- functions only mark the text.
abbrev pub list_merkle : Merkle
list_merkle = record {
  Tree = List Bytes;
  Proof = List Bytes;
  sha256 = λ s. 115 ∷ s;
  blake3 = λ s. 98 ∷ s;
  new_tree = λ leaves blake. some leaves;
  root = encode;
  marshal_tree = λ t. some (encode t);
  unmarshal_tree = λ s. some (decode s);
  generate_proof = λ t l. if has_leaf l t then some t else none;
  verify_proof = λ l pr root blake. some (bytes_equal (encode pr) root && has_leaf l pr);
  marshal_proof = λ pr. some (encode pr);
}

pub list_merkle-MerkleLaws : MerkleLaws list_merkle
list_merkle-MerkleLaws = record {
  reads_back = λ t j e. let same : encode t ≡ j = cc in rw (← same) (ap some (decode-encode t));
  proves = λ leaves blake t l e h.
      let same : leaves ≡ t = cc in
      let listed = has_leaf_of l leaves h in
      (
        t,
        rw (← same) (rw listed refl),
        rw (← same) (ap some (ground (arith, listed, bytes_equal_refl (encode leaves)))),
      );
}
