-- ===== src/Prelude/Bytes/Decimal.antt =====
-- strconv: `FormatInt` (also `%d`), `ParseInt` and `ParseUint` in base 10 at 64 bits.
use Prim.Native.Nat.{ℕ, zero, suc, ◌+◌, ◌-◌, ◌*◌, ◌/◌, ◌%◌, ◌<◌}
use mathlib.Core.Path.{◌≡◌, refl, ap, ◌∙◌}
use mathlib.Core.Logic.{◌≢◌, inl, inr}
use mathlib.Core.Bool.{Bool, true, false, ◌&&◌}
use mathlib.Core.List.{List, [], ◌∷◌}
use mathlib.Core.Option.{Option, none, some}
use native.Mathlib.Omega.{arith}
use sequoia.Prelude.Tests.{ltb, leb, ◌==◌, if◌then◌else◌, Bool-cases}
use sequoia.Prelude.Lists.{All}
use sequoia.Prelude.Int.{ℤ, pos, negsuc, IsI64}

-- The digits of `n` in front of `out`; each round divides by ten, and `fuel` above `n` is enough.
emit : ℕ → ℕ → List ℕ → List ℕ
emit zero n out = out
emit (suc fuel) n out =
    let out' = (b'0' + n % 10) ∷ out in
    let rest = emit fuel (n / 10) out' in if n / 10 == 0 then out' else rest

unfoldable pub format_uint : ℕ → List ℕ
unfolding emit
format_uint n = emit (suc n) n []

-- A negative number has a sign.
unfoldable pub format_int : ℤ → List ℕ
unfolding format_uint
format_int (pos n) = format_uint n
format_int (negsuc n) = b'-' ∷ format_uint (suc n)

abbrev pub is_digit : ℕ → Bool
is_digit c = leb b'0' c && leb c b'9'

-- The number that the digits spell behind those that make `acc`.
unfoldable pub value : ℕ → List ℕ → ℕ
value acc [] = acc
value acc (c ∷ s) = value (acc * 10 + (c - b'0')) s

unfoldable pub all_digits : List ℕ → Bool
all_digits [] = true
all_digits (c ∷ s) = is_digit c && all_digits s

-- `ParseUint`: no digit, another character, and a number that uint64 does not hold are errors.
unfoldable pub parse_uint : List ℕ → Option ℕ
unfolding all_digits value
parse_uint [] = none
parse_uint (c ∷ s) =
    let n = value 0 (c ∷ s) in
    if all_digits (c ∷ s) && ltb n 18446744073709551616 then some n else none

-- The magnitude with its sign, if int64 holds it.
signed : Bool → Option ℕ → Option ℤ
signed negative none = none
signed true (some n) =
    if leb n 9223372036854775808 then some (if n == 0 then pos 0 else negsuc (n - 1)) else none
signed false (some n) = if ltb n 9223372036854775808 then some (pos n) else none

unfoldable pub parse_int : List ℕ → Option ℤ
unfolding parse_uint signed
parse_int [] = none
parse_int (c ∷ s) =
    if c == b'-'
    then signed true (parse_uint s)
    else if c == b'+'
    then signed false (parse_uint s)
    else signed false (parse_uint (c ∷ s))

value-emit : (fuel n : ℕ) (out : List ℕ) → n < fuel → value 0 (emit fuel n out) ≡ value n out
unfolding emit value
value-emit zero n out h = elim h [ ]
value-emit (suc fuel) n out h = elim (Bool-cases (n / 10 == 0)) [
  | inl e ↦ rw e (ap (λ k. value k out) (ground arith))
  | inr e ↦ rw e (
      value-emit fuel (n / 10) ((b'0' + n % 10) ∷ out) (ground arith)
      ∙ ap (λ k. value k out) (omega arith))
]

all_digits-emit :
    (fuel n : ℕ) (out : List ℕ) → all_digits out ≡ true → all_digits (emit fuel n out) ≡ true
unfolding emit all_digits
all_digits-emit zero n out h = h
all_digits-emit (suc fuel) n out h =
    ground (arith, all_digits-emit fuel (n / 10) ((b'0' + n % 10) ∷ out))

abbrev StartsWithDigit : List ℕ → Type 0
StartsWithDigit s = (d : ℕ) × (rest : List ℕ) × (s ≡ d ∷ rest) × (is_digit d ≡ true)

emit-StartsWithDigit : (fuel n : ℕ) (out : List ℕ) → StartsWithDigit (emit (suc fuel) n out)
unfolding emit
emit-StartsWithDigit zero n out = (b'0' + n % 10, out, ground arith, ground arith)
emit-StartsWithDigit (suc fuel) n out = elim (Bool-cases (n / 10 == 0)) [
  | inl e ↦ (b'0' + n % 10, out, rw e, ground arith)
  | inr e ↦ rw e (emit-StartsWithDigit fuel (n / 10) ((b'0' + n % 10) ∷ out))
]

pub format_uint-StartsWithDigit : (n : ℕ) → StartsWithDigit (format_uint n)
unfolding format_uint
format_uint-StartsWithDigit n = emit-StartsWithDigit n n []

pub value-format_uint : (n : ℕ) → value 0 (format_uint n) ≡ n
unfolding format_uint value
value-format_uint n = value-emit (suc n) n [] (omega arith)

pub all_digits-format_uint : (n : ℕ) → all_digits (format_uint n) ≡ true
unfolding format_uint all_digits
all_digits-format_uint n = all_digits-emit (suc n) n [] refl

parse_uint_cases :
    (c : ℕ) (s : List ℕ)
    → all_digits (c ∷ s) ≡ true
    → parse_uint (c ∷ s)
      ≡ (if ltb (value 0 (c ∷ s)) 18446744073709551616 then some (value 0 (c ∷ s)) else none)
unfolding parse_uint
parse_uint_cases c s h = rw h

-- A printed number is parsed back if uint64 holds it, and refused if not.
pub parse_uint-format_uint :
    (n : ℕ) → parse_uint (format_uint n) ≡ (if ltb n 18446744073709551616 then some n else none)
parse_uint-format_uint n =
    let (c, s, e, _) = format_uint-StartsWithDigit n in
    let v : value 0 (c ∷ s) ≡ n = rw e at (value-format_uint n) in
    let d : all_digits (c ∷ s) ≡ true = rw e at (all_digits-format_uint n) in
    rw e (parse_uint_cases c s d ∙ rw v)

parse_unsigned :
    (c : ℕ) (s : List ℕ) → is_digit c ≡ true → parse_int (c ∷ s) ≡ signed false (parse_uint (c ∷ s))
unfolding parse_int
parse_unsigned c s h = ground arith

parse_negative : (s : List ℕ) → parse_int (b'-' ∷ s) ≡ signed true (parse_uint s)
unfolding parse_int
parse_negative s = refl

-- Printing an int64 and parsing it gives it back.
pub parse_int-format_int : (z : ℤ) → IsI64 z → parse_int (format_int z) ≡ some z
unfolding format_int signed
parse_int-format_int (pos n) h =
    let (c, s, e, d) = format_uint-StartsWithDigit n in
    rw e (parse_unsigned c s d ∙ rw (← e) (rw (parse_uint-format_uint n) (ground arith)))
parse_int-format_int (negsuc n) h =
    rw (parse_negative, parse_uint-format_uint (suc n)) (ground arith)

all_digits-Lacks : (s : List ℕ) → all_digits s ≡ true → All (λ c. c ≢ b'/') s
unfolding all_digits
all_digits-Lacks [] h = tt
all_digits-Lacks (c ∷ s) h = (ground arith, all_digits-Lacks s (ground arith))

-- A printed number holds no slash.
pub format_int-Lacks : (z : ℤ) → All (λ c. c ≢ b'/') (format_int z)
unfolding format_int
format_int-Lacks (pos n) = all_digits-Lacks _ (all_digits-format_uint n)
format_int-Lacks (negsuc n) = (ground arith, all_digits-Lacks _ (all_digits-format_uint (suc n)))
