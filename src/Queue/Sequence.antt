-- ===== src/Queue/Sequence.antt =====
-- `extractExpectedSequence` (queue/queue.go): the leftmost match of `expected\s+(\d+)`, whose
-- quantifiers are greedy.
use sequoia.Prelude.{
  ℕ, ◌==◌, if◌then◌else◌, Bool, true, ◌||◌, [], ◌∷◌, ◌++◌, Option, none, some, ◌≡◌, ◌∙◌, ◌≢◌, refl,
  arith, drop, All, ltb, not,
}
use sequoia.Prelude.Bytes.{Bytes, codes, has_prefix}
use sequoia.Prelude.Bytes.Decimal.{
  is_digit, all_digits, parse_uint, format_uint, parse_uint-format_uint, all_digits-format_uint,
  format_uint-StartsWithDigit,
}

-- `\s`: tab, line feed, form feed, carriage return and space.
abbrev is_space : ℕ → Bool
is_space c = c == 9 || c == 10 || c == 12 || c == 13 || c == 32

skip_spaces : Bytes → Bytes
skip_spaces [] = []
skip_spaces (c ∷ s) = let rest = skip_spaces s in if is_space c then rest else c ∷ s

pub leading_digits : Bytes → Bytes
leading_digits [] = []
leading_digits (c ∷ s) = let rest = leading_digits s in if is_digit c then c ∷ rest else []

abbrev non_empty : Bytes → Option Bytes
non_empty [] = none
non_empty (c ∷ s) = some (c ∷ s)

-- What follows the word: at least one space, then at least one digit.
after_word : Bytes → Option Bytes
unfolding skip_spaces leading_digits
after_word [] = none
after_word (c ∷ s) = if is_space c then non_empty (leading_digits (skip_spaces s)) else none

abbrev pub expected : Bytes
expected = codes "expected"

match_here : Bytes → Option Bytes
unfolding has_prefix after_word
match_here s = if has_prefix s expected then after_word (drop 8 s) else none

abbrev or_else : Option Bytes → Option Bytes → Option Bytes
or_else none n = n
or_else (some d) n = some d

-- `FindStringSubmatch`: the digits of the leftmost match.
find_match : Bytes → Option Bytes
unfolding match_here
find_match [] = none
find_match (c ∷ s) = or_else (match_here (c ∷ s)) (find_match s)

abbrev bind_uint : Option Bytes → Option ℕ
bind_uint none = none
bind_uint (some d) = parse_uint d

unfoldable pub extract_expected_sequence : Bytes → Option ℕ
unfolding find_match parse_uint
extract_expected_sequence error_msg = bind_uint (find_match error_msg)

-- Before the `e` of the word there is no `x`, so no match starts early.
match_here-none : (c d : ℕ) (s : Bytes) → d ≢ b'x' → match_here (c ∷ d ∷ s) ≡ none
unfolding match_here
match_here-none c d s h = ground arith

find_match_step :
    (c : ℕ) (s : Bytes) → match_here (c ∷ s) ≡ none → find_match (c ∷ s) ≡ find_match s
unfolding find_match
find_match_step c s h = rw h

find_match-append :
    (pre s : Bytes)
    → All (λ c. c ≢ b'x') pre
    → find_match (pre ++ (expected ++ s)) ≡ find_match (expected ++ s)
find_match-append [] s h = refl
find_match-append (c ∷ []) s h =
    find_match_step c _ (match_here-none c b'e' (codes "xpected" ++ s) (omega arith))
find_match-append (c ∷ d ∷ pre) s h =
    find_match_step c _ (match_here-none c d (pre ++ (expected ++ s)) h.1.0)
    ∙ find_match-append (d ∷ pre) s h.1

abbrev no_digit_first : Bytes → Bool
no_digit_first [] = true
no_digit_first (c ∷ s) = not (is_digit c)

leading_digits-append :
    (d rest : Bytes)
    → all_digits d ≡ true
    → no_digit_first rest ≡ true
    → leading_digits (d ++ rest) ≡ d
unfolding leading_digits all_digits
leading_digits-append [] [] h k = refl
leading_digits-append [] (c ∷ rest) h k = ground arith
leading_digits-append (c ∷ d) rest h k = ground (arith, leading_digits-append d rest)

after_word_lem :
    (c : ℕ) (d rest : Bytes)
    → all_digits (c ∷ d) ≡ true
    → no_digit_first rest ≡ true
    → after_word (32 ∷ ((c ∷ d) ++ rest)) ≡ some (c ∷ d)
unfolding after_word all_digits
after_word_lem c d rest h k =
    let s : skip_spaces ((c ∷ d) ++ rest) ≡ (c ∷ d) ++ rest = ground arith in
    rw (s, leading_digits-append (c ∷ d) rest h k)

find_match_digits :
    (d rest : Bytes) (c : ℕ) (s : Bytes)
    → d ≡ c ∷ s
    → all_digits d ≡ true
    → no_digit_first rest ≡ true
    → find_match (expected ++ (32 ∷ (d ++ rest))) ≡ some d
unfolding find_match
find_match_digits d rest c s e h k =
    let a : after_word (32 ∷ (d ++ rest)) ≡ some d = rw e (after_word_lem c s rest (rw e at h) k) in
    rw a

-- From a text that names the expected sequence number behind a prefix with no `x`, as the chain's
-- "account sequence mismatch, expected N, got M" does, the function takes that number, whatever
-- follows its last digit, if uint64 holds it, and otherwise reports that it found none.
pub extract_expected_sequence_exact :
    (pre rest : Bytes) (n : ℕ)
    → All (λ c. c ≢ b'x') pre
    → no_digit_first rest ≡ true
    → extract_expected_sequence (pre ++ (expected ++ (32 ∷ (format_uint n ++ rest))))
      ≡ (if ltb n 18446744073709551616 then some n else none)
unfolding extract_expected_sequence
extract_expected_sequence_exact pre rest n h k =
    let (c, s, e, _) = format_uint-StartsWithDigit n in
    rw
      (
        find_match-append pre (32 ∷ (format_uint n ++ rest)) h,
        find_match_digits (format_uint n) rest c s e (all_digits-format_uint n) k,
      )
      (parse_uint-format_uint n)
