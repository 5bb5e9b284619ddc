-- ===== src/FileSystem/Keys.antt =====
-- The database keys (file_system/keys.go): a contract is a Merkle root, an owner and a start block.
use sequoia.Prelude.{
  ℕ, ◌<◌, List, [], ◌∷◌, ◌++◌, ◌≡◌, ◌≢◌, refl, sym, ◌∙◌, ap, Option, none, some, arith, All, drop,
}
use sequoia.Prelude.Int.{ℤ, IsI64}
use sequoia.Prelude.Bytes.{Bytes, codes}
use sequoia.Prelude.Bytes.Hex.{hex_encode, hex_decode, hex_decode-hex_encode, hex_encode-Lacks}
use sequoia.Prelude.Bytes.Decimal.{format_int, parse_int, parse_int-format_int, format_int-Lacks}
use sequoia.Prelude.Bytes.Split.{split, split-append, split_last}

pub record Contract : Type 0 where
  pub merkle : Bytes
  pub owner : Bytes
  pub start : ℤ

-- Too few parts make `its[2]` panic.
pub data Parsed : Type 0 where
  parsed : Contract → Parsed
  bad_merkle bad_start index_panic : Parsed

abbrev with_start : Bytes → Bytes → Option ℤ → Parsed
with_start merkle owner none = bad_start
with_start merkle owner (some start) =
    parsed (record { merkle = merkle; owner = owner; start = start })

abbrev with_merkle : Option Bytes → List Bytes → Parsed
with_merkle none its = bad_merkle
with_merkle (some merkle) (owner ∷ start ∷ its) = with_start merkle owner (parse_int start)
with_merkle (some merkle) (owner ∷ []) = index_panic
with_merkle (some merkle) [] = index_panic

abbrev of_parts : List Bytes → Parsed
of_parts [] = index_panic
of_parts (first ∷ its) = with_merkle (hex_decode first) its

abbrev pub slash : ℕ
slash = b'/'

unfoldable pub split_merkle : Bytes → Parsed
unfolding split hex_decode parse_int
split_merkle key = of_parts (split slash key)

abbrev pub tree_prefix : Bytes
tree_prefix = codes "tree/"

abbrev pub cid_prefix : Bytes
cid_prefix = codes "cid/"

-- `tree/%x/%s/%d`
unfoldable pub tree_key : Bytes → Bytes → ℤ → Bytes
tree_key merkle owner start =
    tree_prefix ++ (hex_encode merkle ++ (slash ∷ (owner ++ (slash ∷ format_int start))))

-- `cid/%x`
unfoldable pub cid_key : Bytes → Bytes
cid_key merkle = cid_prefix ++ hex_encode merkle

-- The contracts that a key can spell: the root is bytes, the owner has no slash, the start is an
-- int64.
pub record IsPlain (c : Contract) : Type 0 where
  pub merkle_bytes : All (λ b. b < 256) c.merkle
  pub owner_slashless : All (λ b. b ≢ slash) c.owner
  pub start_i64 : IsI64 c.start

key_parts :
    (c : Contract)
    → IsPlain c
    → split slash (hex_encode c.merkle ++ (slash ∷ (c.owner ++ (slash ∷ format_int c.start))))
      ≡ hex_encode c.merkle ∷ c.owner ∷ format_int c.start ∷ []
key_parts c v =
    split-append slash (hex_encode c.merkle) _ (hex_encode-Lacks c.merkle v.merkle_bytes)
    ∙ ap (λ l. hex_encode c.merkle ∷ l)
        (split-append slash c.owner _ v.owner_slashless
          ∙ ap (λ l. c.owner ∷ l)
              (split_last slash (format_int c.start) (format_int-Lacks c.start)))

split_merkle_parts : (key : Bytes) → split_merkle key ≡ of_parts (split slash key)
unfolding split_merkle
split_merkle_parts key = refl

-- `SplitMerkle` reads back, from what follows the prefix of a tree key, the contract that the key
-- was made of, if its root is bytes, its owner has no slash and its start is an int64.
pub split_merkle-tree_key :
    (c : Contract)
    → IsPlain c
    → split_merkle (drop 5 (tree_key c.merkle c.owner c.start)) ≡ parsed c
unfolding tree_key
split_merkle-tree_key c v =
    split_merkle_parts _
    ∙ ap of_parts (key_parts c v)
    ∙ rw (hex_decode-hex_encode c.merkle v.merkle_bytes, parse_int-format_int c.start v.start_i64)

abbrev first_byte : Bytes → ℕ
first_byte [] = 0
first_byte (c ∷ s) = c

-- The two kinds of keys are apart.
pub tree_key-ne-cid_key : (m : Bytes) (o : Bytes) (s : ℤ) (n : Bytes) → tree_key m o s ≢ cid_key n
unfolding tree_key cid_key
tree_key-ne-cid_key m o s n e = omega (arith, ap first_byte e)

-- Two contracts, whose roots are bytes, whose owners have no slash and whose starts are int64s, have
-- one key only if they are one.
pub tree_key_injective :
    (c d : Contract)
    → IsPlain c
    → IsPlain d
    → tree_key c.merkle c.owner c.start ≡ tree_key d.merkle d.owner d.start
    → c ≡ d
tree_key_injective c d v w e =
    let a = split_merkle-tree_key c v in
    let b = split_merkle-tree_key d w in
    let same : parsed c ≡ parsed d = sym a ∙ ap (λ k. split_merkle (drop 5 k)) e ∙ b in cc
