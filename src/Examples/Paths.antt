-- ===== src/Examples/Paths.antt =====
-- The theorems on what is served, applied to a folder on the network and to a file that was written.
use sequoia.Prelude.{
  ℕ, ◌==◌, if◌then◌else◌, Bool, true, false, not, ◌&&◌, List, [], ◌∷◌, ◌≡◌, refl, ap, ◌↔◌, Option,
  some, none, inr, arith,
}
use sequoia.Prelude.Int.{pos}
use sequoia.Prelude.Bytes.{Bytes, codes, bytes_equal}
use sequoia.Prelude.Bytes.Hex.{hex_encode}
use sequoia.Prelude.Bytes.Decimal.{format_int}
use sequoia.FileSystem.Keys.{cid_key, tree_key}
use sequoia.FileSystem.Stores.{Ipfs, World}
use sequoia.FileSystem.Tree.{build_tree, leaf}
use sequoia.FileSystem.Write.{wrote, write_file, put_entries, add_data}
use sequoia.Api.Paths.{
  Gateway, FolderData, response, opened, not_opened, get_merkle_path_data, get_file_data,
  get_merkle_data, enter, find_child, at_end,
}
use sequoia.Api.Paths.Resolve.{Ends, get_merkle_path_data_exact}
use sequoia.Api.Paths.Stored.{Returns, written_is_served}
use sequoia.Examples.Stores.{Pairs, pairs_db, small_ipfs, list_merkle, encode, lookup, head_code}
use sequoia.Examples.Files.{reader, root, owner}

-- The data 1 is a folder in which x is the data 2.
abbrev folder_of : Bytes → Option FolderData
folder_of d =
    if bytes_equal d (1 ∷ [])
    then some (record {
      name = codes "top";
      merkle = [];
      version = 0;
      children = record { name = codes "x"; merkle = 2 ∷ []; size = 1 } ∷ [];
    })
    else none

-- A provider that sends the Merkle root itself.
abbrev gateway : Gateway (List ℕ)
gateway = record {
  get_file = λ bs c. not_opened;
  find_file = λ merkle. some (codes "b" ∷ []);
  download = λ ip merkle name. response 200 (some merkle);
  folder_data = folder_of;
  generate_html = λ folder current. none;
  my_ip = codes "a";
}

abbrev nothing_here : World Pairs (List ℕ)
nothing_here = record { db = []; blocks = []; file_count = pos 0 }

get_merkle_path_data_exact_example :
    (get_merkle_path_data pairs_db small_ipfs gateway nothing_here
        (1 ∷ [])
        (codes "x" ∷ [])
        (codes "top")
        (codes "/find")
        true
      ≡ inr (2 ∷ [], codes "x"))
    ↔ Ends pairs_db small_ipfs gateway nothing_here
        (codes "/find")
        true
        (1 ∷ [])
        (codes "top")
        (codes "x" ∷ [])
        (2 ∷ [], codes "x")
get_merkle_path_data_exact_example =
    get_merkle_path_data_exact pairs_db small_ipfs gateway nothing_here (codes "/find") true
      (1 ∷ []) (codes "top") (codes "x" ∷ []) (2 ∷ [], codes "x")

resolved :
    get_merkle_path_data pairs_db small_ipfs gateway nothing_here
      (1 ∷ [])
      (codes "x" ∷ [])
      (codes "top")
      (codes "/find")
      true
    ≡ inr (2 ∷ [], codes "x")
unfolding get_merkle_path_data get_merkle_data get_file_data enter lookup bytes_equal find_child
    at_end
resolved = refl

abbrev held : Option Bytes → Bool
held none = false
held (some s) = true

abbrev dropped : ℕ → Option Bytes → Option Bytes
dropped c o = if c == 1 then none else o

held-dropped :
    (o : Option Bytes) (c d : ℕ)
    → (held (dropped c o) && d == 1) ≡ ((held o && d == 1) && not (d == c))
held-dropped none c d = ground arith
held-dropped (some s) c d = ground arith

-- A peer that keeps one file, the last one, under the CID 1.
abbrev one_file : Ipfs
one_file = record {
  Blocks = Option Bytes;
  Params = Unit {0};
  has = λ o c. held o && c == 1;
  links = λ o c. if held o && c == 1 then some [] else none;
  delete_block = λ o c. some (dropped c o);
  add_file = λ o content params. (some content, some 1);
  add_folder = λ o content. (o, none);
  after_broken_add = λ bs. bs;
  get_file_chunk = λ o c index size. none;
  get_node_json = λ o c. none;
  all_keys = λ o. some (if held o then 1 ∷ [] else []);
  cid_string = λ c. c ∷ [];
  decode_cid = head_code;
  decode_cid-cid_string = λ c. refl;
  has-delete_block =
      λ o o' c d e. let same : dropped c o ≡ o' = cc in rw (← same) (held-dropped o c d);
}

-- It serves the file that it keeps.
abbrev keeper : Gateway (Option Bytes)
keeper = record {
  get_file = λ o c. elim o [ none ↦ not_opened | some s ↦ opened s ];
  find_file = λ merkle. none;
  download = λ ip merkle name. response 404 none;
  folder_data = λ d. none;
  generate_html = λ folder current. none;
  my_ip = codes "a";
}

keeper-Returns : Returns pairs_db one_file list_merkle keeper
keeper-Returns = record {
  returns =
      λ o o' content params c e. let same : some content ≡ o' = ap (λ x. x.0) e in rw (← same) refl;
}

abbrev blank : World Pairs (Option Bytes)
blank = record { db = []; blocks = none; file_count = pos 0 }

abbrev kept : World Pairs (Option Bytes)
kept = record {
  db = (cid_key root, 1 ∷ []) ∷ (tree_key root owner (pos 5), root) ∷ [];
  blocks = some (0 ∷ 7 ∷ 1 ∷ 7 ∷ []);
  file_count = pos 1;
}

kept_lem :
    write_file pairs_db one_file list_merkle blank reader root owner (pos 5) (pos 0) tt
    ≡ (kept, wrote 4 1)
unfolding write_file build_tree leaf encode format_int hex_encode bytes_equal put_entries add_data
kept_lem = refl

written_is_served_example :
    (get_file_data pairs_db one_file keeper kept root ≡ inr (0 ∷ 7 ∷ 1 ∷ 7 ∷ []))
    × ((name : Bytes)
        → get_merkle_data pairs_db one_file keeper kept root name ≡ inr (0 ∷ 7 ∷ 1 ∷ 7 ∷ []))
written_is_served_example =
    written_is_served pairs_db one_file list_merkle keeper keeper-Returns blank kept reader
      (0 ∷ 7 ∷ 1 ∷ 7 ∷ []) root owner (pos 5) (pos 0) tt 4 1 refl refl kept_lem
