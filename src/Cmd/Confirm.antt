-- ===== src/Cmd/Confirm.antt =====
-- `askForConfirmation` (cmd/root.go). What the standard input delivers is a list of chunks, one for
-- each read; after the last one it is at its end. Each call has a `bufio.Reader` of its own, and what
-- that has read and not used is lost with it. Of `strings.TrimSpace` and `strings.ToLower`, the ASCII
-- part is written out.
pub mod Lines
use sequoia.Prelude.{
  ℕ, zero, suc, ◌+◌, ◌-◌, leb, ◌==◌, if◌then◌else◌, Bool, true, false, ◌&&◌, ◌||◌, List, [], ◌∷◌,
  ◌++◌, Option, none, some, map, length,
}
use sequoia.Prelude.Bytes.{Bytes, bytes_equal, codes}

abbrev pub is_space : ℕ → Bool
is_space c = (leb 9 c && leb c 13) || (c == 32)

unfoldable pub trim_left : Bytes → Bytes
trim_left [] = []
trim_left (c ∷ s) = elim (is_space c) [ true ↦ trim_left s | false ↦ c ∷ s ]

-- Spaces at the end go, from the back.
abbrev drop_space : ℕ → Bytes → Bytes
drop_space c [] = if is_space c then [] else c ∷ []
drop_space c (x ∷ s) = c ∷ x ∷ s

unfoldable pub trim_right : Bytes → Bytes
trim_right [] = []
trim_right (c ∷ s) = drop_space c (trim_right s)

unfoldable pub to_lower : Bytes → Bytes
to_lower = map λ c. if leb b'A' c && leb c b'Z' then c + 32 else c

abbrev is_one_of : Bytes → Bytes → Bytes → Bool
is_one_of s a b = bytes_equal s a || bytes_equal s b

-- What a line answers: yes, no, or neither.
unfoldable pub answer : Bytes → Option Bool
unfolding trim_left trim_right to_lower bytes_equal
answer line =
    let response = to_lower (trim_right (trim_left line)) in
    if is_one_of response (codes "y") (codes "yes")
    then some true
    else if is_one_of response (codes "n") (codes "no")
    then some false
    else none

abbrev pub before_line : ℕ → Option (Bytes × Bytes) → Option (Bytes × Bytes)
before_line c none = none
before_line c (some (l, r)) = some (c ∷ l, r)

-- A line with its end, and what follows it.
unfoldable pub take_line : Bytes → Option (Bytes × Bytes)
take_line [] = none
take_line (c ∷ s) = if c == 10 then some (c ∷ [], s) else before_line c (take_line s)

-- `ReadString('\n')`: a line, with what is left in the buffer and in the input, or the end.
pub data Read : Type 0 where
  line : Bytes → Bytes → List Bytes → Read
  at_end : Read

abbrev pub or_end : Option (Bytes × Bytes) → Read
or_end none = at_end
or_end (some (l, r)) = line l r []

unfoldable pub read_string : Bytes → List Bytes → Read
read_string buffer [] = or_end (take_line buffer)
read_string buffer (c ∷ cs) = elim (take_line buffer) [
  | none ↦ read_string (buffer ++ c) cs
  | some (l, r) ↦ line l r (c ∷ cs)
]

-- The answer, and the chunks that no read has taken.
abbrev pub Answered : Type 0
Answered = Bool × List Bytes

pub answered : Option Bool → List Bytes → Option Answered → Option Answered
answered none cs again = again
answered (some b) cs again = some (b, cs)

unfoldable pub after_read : (Bytes → List Bytes → Option Answered) → Read → Option Answered
unfolding answered
after_read again at_end = some (false, [])
after_read again (line l r cs) = answered (answer l) cs (again r cs)

-- `none` is fuel that does not suffice.
unfoldable pub ask : ℕ → Bytes → List Bytes → Option Answered
unfolding after_read
ask zero buffer cs = none
ask (suc fuel) buffer cs = after_read (ask fuel) (read_string buffer cs)

unfoldable pub concat : List Bytes → Bytes
concat [] = []
concat (c ∷ cs) = c ++ concat cs

-- Each round takes a line, so that one round for each byte is enough.
unfoldable pub ask_for_confirmation : List Bytes → Option Answered
unfolding ask concat
ask_for_confirmation cs = ask (suc (length (concat cs))) [] cs

abbrev second : Option Answered → Option Bool
second none = none
second (some (b, cs)) = some b

abbrev pub first_yes : Option Answered → Option Bool
first_yes none = none
first_yes (some (false, cs)) = some false
first_yes (some (true, cs)) = second (ask_for_confirmation cs)

-- The two questions of `ShutdownCmd`; the second is asked only after a yes.
unfoldable pub confirm_twice : List Bytes → Option Bool
confirm_twice cs = first_yes (ask_for_confirmation cs)
