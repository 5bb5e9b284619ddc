-- ===== src/Seeker/Files.antt =====
-- Data that is held whole, in memory or in a temporary file, as `WriteFile` reads it: in reads of the
-- chunk size, then from the start again.
use sequoia.Prelude.{
  ◌≢◌, ◌<◌, sym, subst, All, arith, suc, true, List, [], Option, none, some, length,
}
use sequoia.Prelude.Int.{ℤ, pos_part}
use sequoia.Prelude.Bytes.{Bytes}
use sequoia.FileSystem.Tree.{Reader}
use sequoia.Seeker.Reads.{read_loop-joined}
use sequoia.Seeker.{new_bytes_seeker, read_loop}

abbrev pub reads_of : Option (List Bytes) → List Bytes
reads_of none = []
reads_of (some rs) = rs

unfoldable pub reader_of : ℤ → Bytes → Reader
reader_of chunk_size d = record {
  reads = reads_of (read_loop (suc (length d)) (pos_part chunk_size) (new_bytes_seeker d));
  rewinds = true;
  whole = some d;
}

-- With a chunk size that is not 0, no read of data shorter than 2^63 bytes is empty.
pub reads_full :
    (chunk_size : ℤ) (d : Bytes)
    → pos_part chunk_size ≢ 0
    → length d < 9223372036854775808
    → All (λ (r : Bytes). length r ≢ 0) (reader_of chunk_size d).reads
unfolding reader_of new_bytes_seeker
reads_full chunk_size d some_size small =
    let (rs, run, joins, full) =
      read_loop-joined (suc (length d)) (pos_part chunk_size) 0 d some_size (omega arith) small
        (omega arith) in
    subst (λ l. All (λ (r : Bytes). length r ≢ 0) (reads_of l)) (sym run) full
