-- ===== src/Seeker.antt =====
-- `BytesSeeker` (types/bytes_seeker.go), the reader of the nodes of folders and of restored data.
pub mod TempFile
pub mod Reads
pub mod Seeks
pub mod Files
pub mod Sizes
use Prim.Native.Nat.{min}
use sequoia.Prelude.{
  ℕ, zero, suc, ◌+◌, ◌*◌, ◌==◌, if◌then◌else◌, Bool, true, false, not, List, [], ◌∷◌, ◌++◌, Option,
  none, some, length, take, drop,
}
use sequoia.Prelude.Int.{ℤ, pos, pos_part, neg_part, ◌+ℤ◌, ltb_ℤ, to_i64}
use sequoia.Prelude.Bytes.{Bytes}

pub record BytesSeeker : Type 0 where
  pub data_ : Bytes
  pub at : ℤ

-- The int64 that an integer wraps around to.
abbrev pub wrap_i64 : ℤ → ℤ
wrap_i64 z = to_i64 (pos_part z + 18446744073709551615 * neg_part z)

unfoldable pub new_bytes_seeker : Bytes → BytesSeeker
new_bytes_seeker d = record { data_ = d; at = pos 0 }

-- The number of bytes written is the length of what was given.
unfoldable pub write : Bytes → BytesSeeker → BytesSeeker × ℕ
write p b = (record b { data_ = b.data_ ++ p }, length p)

-- A read with a buffer of `size` bytes; `none` is the end of the file.
unfoldable pub read : ℕ → BytesSeeker → BytesSeeker × Option Bytes
read size b =
    if ltb_ℤ b.at (pos (length b.data_))
    then (let got = take size (drop (pos_part b.at) b.data_) in
        (record b { at = wrap_i64 (b.at +ℤ pos (length got)) }, some got))
    else (b, none)

pub data SeekError : Type 0 where
  invalid_whence negative_position : SeekError

-- The new position, or the error.
pub data Sought : Type 0 where
  sought : ℤ → Sought
  not_sought : SeekError → Sought

-- The position that is asked for, from the start, from the current position or from the end.
unfoldable pub target : ℤ → ℕ → BytesSeeker → Option ℤ
target offset whence b =
    if whence == 0
    then some offset
    else if whence == 1
    then some (wrap_i64 (b.at +ℤ offset))
    else if whence == 2
    then some (wrap_i64 (pos (length b.data_) +ℤ offset))
    else none

clamp : ℤ → ℕ → ℤ
clamp z len = if ltb_ℤ (pos len) z then pos len else z

pub move : Option ℤ → BytesSeeker → BytesSeeker × Sought
unfolding clamp
move none b = (b, not_sought invalid_whence)
move (some z) b =
    if ltb_ℤ z (pos 0)
    then (b, not_sought negative_position)
    else (record b { at = clamp z (length b.data_) }, sought (clamp z (length b.data_)))

unfoldable pub seek : ℤ → ℕ → BytesSeeker → BytesSeeker × Sought
unfolding target move
seek offset whence b = move (target offset whence b) b

-- A read in front of the later ones; the end of the file is the end of the reads.
abbrev pub before : Option Bytes → Option (List Bytes) → Option (List Bytes)
before none later = some []
before (some r) none = none
before (some r) (some rs) = some (r ∷ rs)

-- The reads of a loop that reads until the end of the file, as `BuildTree` does: `none` when the
-- fuel is out.
unfoldable pub read_loop : ℕ → ℕ → BytesSeeker → Option (List Bytes)
read_loop zero size b = none
read_loop (suc fuel) size b = let step = read size b in before step.1 (read_loop fuel size step.0)
