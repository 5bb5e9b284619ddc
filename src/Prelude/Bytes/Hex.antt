-- ===== src/Prelude/Bytes/Hex.antt =====
-- encoding/hex: `EncodeToString` (also `%x`) and `DecodeString`.
use Prim.Native.Nat.{ℕ, ◌+◌, ◌-◌, ◌*◌, ◌/◌, ◌%◌, ◌<◌}
use mathlib.Core.Path.{◌≡◌, refl}
use mathlib.Core.Logic.{◌≢◌}
use mathlib.Core.Bool.{◌&&◌}
use mathlib.Core.List.{List, [], ◌∷◌}
use mathlib.Core.Option.{Option, none, some}
use native.Mathlib.Omega.{arith}
use sequoia.Prelude.Tests.{ltb, leb, if◌then◌else◌}
use sequoia.Prelude.Lists.{All}

abbrev hex_digit : ℕ → ℕ
hex_digit n = if ltb n 10 then b'0' + n else b'a' + (n - 10)

unfoldable pub hex_encode : List ℕ → List ℕ
hex_encode [] = []
hex_encode (b ∷ bs) = hex_digit (b / 16) ∷ hex_digit (b % 16) ∷ hex_encode bs

abbrev from_hex_char : ℕ → Option ℕ
from_hex_char c =
    if leb b'0' c && leb c b'9'
    then some (c - b'0')
    else if leb b'a' c && leb c b'f'
    then some (c - b'a' + 10)
    else if leb b'A' c && leb c b'F'
    then some (c - b'A' + 10)
    else none

abbrev join_nibbles : Option ℕ → Option ℕ → Option (List ℕ) → Option (List ℕ)
join_nibbles (some h) (some l) (some bs) = some ((h * 16 + l) ∷ bs)
join_nibbles (some h) (some l) none = none
join_nibbles (some h) none r = none
join_nibbles none l r = none

-- An odd length or a character that is no hex digit is an error.
unfoldable pub hex_decode : List ℕ → Option (List ℕ)
hex_decode [] = some []
hex_decode (h ∷ []) = none
hex_decode (h ∷ l ∷ s) = join_nibbles (from_hex_char h) (from_hex_char l) (hex_decode s)

from_hex_char-hex_digit : (n : ℕ) → n < 16 → from_hex_char (hex_digit n) ≡ some n
from_hex_char-hex_digit n h = ground arith

pub hex_decode-hex_encode :
    (bs : List ℕ) → All (λ b. b < 256) bs → hex_decode (hex_encode bs) ≡ some bs
unfolding hex_encode hex_decode
hex_decode-hex_encode [] h = refl
hex_decode-hex_encode (b ∷ bs) h =
    rw
      (
        from_hex_char-hex_digit (b / 16) (omega arith),
        from_hex_char-hex_digit (b % 16) (omega arith),
        hex_decode-hex_encode bs h.1,
      )
      (ground arith)

hex_digit-Lacks : (n : ℕ) → n < 16 → hex_digit n ≢ b'/'
hex_digit-Lacks n h = ground arith

-- Encoded bytes hold no slash.
pub hex_encode-Lacks : (bs : List ℕ) → All (λ b. b < 256) bs → All (λ c. c ≢ b'/') (hex_encode bs)
unfolding hex_encode
hex_encode-Lacks [] h = tt
hex_encode-Lacks (b ∷ bs) h = (
  hex_digit-Lacks (b / 16) (omega arith),
  (hex_digit-Lacks (b % 16) (omega arith), hex_encode-Lacks bs h.1),
)
