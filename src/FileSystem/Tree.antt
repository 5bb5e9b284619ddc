-- ===== src/FileSystem/Tree.antt =====
-- `BuildTree` (file_system/file_system.go) and the proof types (types/proof_types.go). A reader is
-- what its reads with a buffer of the chunk size give, whether it can be rewound, and what it gives
-- when it is read whole afterwards.
use sequoia.Prelude.{
  ℕ, suc, ◌+◌, ◌==◌, if◌then◌else◌, Bool, List, [], ◌∷◌, ◌++◌, Option, none, some, length,
}
use sequoia.Prelude.Int.{ℤ, pos, eqb_ℤ}
use sequoia.Prelude.Bytes.{Bytes}
use sequoia.Prelude.Bytes.Hex.{hex_encode}
use sequoia.Prelude.Bytes.Decimal.{format_int}
use sequoia.FileSystem.Stores.{Merkle}

abbrev pub proof_type_default : ℤ
proof_type_default = pos 0

abbrev pub proof_type_ipfs_folder : ℤ
proof_type_ipfs_folder = pos 1

abbrev pub proof_type_blake3 : ℤ
proof_type_blake3 = pos 3

pub record Reader : Type 0 where
  pub reads : List Bytes
  pub rewinds : Bool
  pub whole : Option Bytes

abbrev pub is_blake3 : ℤ → Bool
is_blake3 proof_type = eqb_ℤ proof_type proof_type_blake3

pub data Built (Tree : Type 0) : Type 0 where
  built : Tree → Bytes → ℕ → Built Tree
  tree_failed marshal_failed : Built Tree

module _ (m : Merkle) where
  open m use {Tree, sha256, blake3, new_tree, marshal_tree}

  -- The hash of the index in decimal, then the chunk in hexadecimal.
  unfoldable pub leaf : ℤ → ℤ → Bytes → Bytes
  leaf proof_type index chunk =
      let text = format_int index ++ hex_encode chunk in
      if is_blake3 proof_type then blake3 text else sha256 text

  -- A read of nothing ends the loop, which gives the leaves and the bytes read.
  unfoldable pub read_leaves : ℤ → ℕ → List Bytes → List Bytes × ℕ
  read_leaves proof_type index [] = ([], 0)
  read_leaves proof_type index (b ∷ bs) =
      let rest = read_leaves proof_type (suc index) bs in
      if length b == 0 then ([], 0) else (leaf proof_type (pos index) b ∷ rest.0, length b + rest.1)

  unfoldable pub exported : Tree → ℕ → Option Bytes → Built Tree
  exported t size none = marshal_failed
  exported t size (some e) = built t e size

  unfoldable pub from_leaves : Option Tree → ℕ → Built Tree
  unfolding exported
  from_leaves none size = tree_failed
  from_leaves (some t) size = exported t size (marshal_tree t)

  unfoldable pub build_tree : List Bytes → ℤ → Built Tree
  unfolding read_leaves from_leaves
  build_tree reads proof_type =
      let (data_, size) = read_leaves proof_type 0 reads in
      from_leaves (new_tree data_ (is_blake3 proof_type)) size
