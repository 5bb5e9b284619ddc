-- ===== src/Network/Timeout.antt =====
-- The timeout of a download (network/downloads.go).
use Prim.Native.Nat.{min}
use sequoia.Prelude.{ℕ, ◌+◌, ◌*◌, ◌/◌, ◌<◌, ◌≡◌, arith}
use sequoia.Prelude.Int.{pos, ◌+ℤ◌}
use sequoia.Seeker.{wrap_i64}
use sequoia.Network.{second, bytes_per_second, times, timeout}

wraps_not : (n : ℕ) → n < 9223372036854775808 → wrap_i64 (pos n) ≡ pos n
wraps_not n h = ground arith

times_small : (q : ℕ) → q < 9000000000 → times (pos q) second ≡ pos (q * second)
times_small q h = ground arith

timeout_of :
    (q : ℕ)
    → q < 9000000000
    → wrap_i64 (pos (30 * second) +ℤ times (pos q) second) ≡ pos ((30 + q) * second)
timeout_of q h = rw (times_small q h) (ground arith)

-- For a file of fewer than 9 * 10^16 bytes nothing overflows: the timeout is thirty seconds and one
-- second for each 10 MiB, and never more than thirty minutes.
pub timeout_in_range :
    (size : ℕ)
    → size < 90000000000000000
    → timeout (pos size) ≡ pos (min (30 + size / bytes_per_second) 1800 * second)
unfolding timeout
timeout_in_range size small =
    let q : size / bytes_per_second < 9000000000 = omega arith in
    rw (timeout_of (size / bytes_per_second) q) (ground arith)
