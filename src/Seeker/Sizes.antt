-- ===== src/Seeker/Sizes.antt =====
-- The size that `BuildTree` (file_system/file_system.go) counts of data that is held whole.
use sequoia.Prelude.{
  ℕ, suc, ◌<◌, ◌≡◌, ◌≢◌, refl, sym, ap, ◌∙◌, false, ◌==◌, List, [], ◌∷◌, Option, none, some, All,
  arith, length, length-append, Option-cases, inl, inr,
}
use sequoia.Prelude.Int.{ℤ, pos_part}
use sequoia.Prelude.Bytes.{Bytes}
use sequoia.FileSystem.Stores.{Merkle}
use sequoia.FileSystem.Tree.{built, read_leaves, build_tree, from_leaves, exported}
use sequoia.Seeker.{new_bytes_seeker}
use sequoia.Seeker.Reads.{joined, read_loop-joined}
use sequoia.Seeker.Files.{reader_of}

module _ (m : Merkle) where
  read_leaves_size :
      (proof_type : ℤ) (k : ℕ) (rs : List Bytes)
      → All (λ (r : Bytes). length r ≢ 0) rs
      → (read_leaves m proof_type k rs).1 ≡ length (joined rs)
  unfolding read_leaves
  read_leaves_size proof_type k [] full = refl
  read_leaves_size proof_type k (r ∷ rs) (ne, full) =
      let some_bytes : (length r == 0) ≡ false = ground arith in
      rw (some_bytes, read_leaves_size proof_type (suc k) rs full)
        (sym (length-append r (joined rs)))

  from_leaves_size :
      (o : Option m.Tree) (size n : ℕ) (t : m.Tree) (json : Bytes)
      → from_leaves m o size ≡ built t json n
      → size ≡ n
  unfolding from_leaves exported
  from_leaves_size none size n t json e = cc
  from_leaves_size (some u) size n t json e = elim (Option-cases (m.marshal_tree u)) [
    | inl fails ↦ let k = rw (fails, exported) at e in cc
    | inr (j, w) ↦ let k = rw (w, exported) at e in cc
  ]

  -- With a chunk size that is not 0, the size of data shorter than 2^63 bytes is its length.
  pub build_tree_size :
      (chunk_size : ℤ) (d : Bytes) (proof_type : ℤ) (t : m.Tree) (json : Bytes) (n : ℕ)
      → pos_part chunk_size ≢ 0
      → length d < 9223372036854775808
      → build_tree m (reader_of chunk_size d).reads proof_type ≡ built t json n
      → n ≡ length d
  unfolding build_tree reader_of new_bytes_seeker
  build_tree_size chunk_size d proof_type t json n some_size small e =
      let (rs, run, all, full) =
        read_loop-joined (suc (length d)) (pos_part chunk_size) 0 d some_size (omega arith) small
          (omega arith) in
      let e' = rw run at e in
      sym (from_leaves_size _ _ n t json e') ∙ read_leaves_size proof_type 0 rs full ∙ ap length all
