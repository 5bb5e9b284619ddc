-- ===== src/Cmd/Confirm/Lines.antt =====
-- The answers of `askForConfirmation` (cmd/root.go) by the lines of the input.
use sequoia.Prelude.{
  ℕ, zero, suc, ◌<◌, ◌==◌, if◌then◌else◌, Bool, true, false, List, [], ◌∷◌, ◌++◌, Option, none,
  some, ◌≡◌, refl, sym, arith, length, append_assoc, append-nil, Option-cases, inl, inr,
}
use sequoia.Prelude.Bytes.{Bytes}
use sequoia.Cmd.Confirm.{
  answer, before_line, take_line, Read, line, at_end, or_end, read_string, Answered, answered,
  after_read, ask, concat, ask_for_confirmation, first_yes, confirm_twice,
}

-- The lines that the text ends, the first one after what is given.
unfoldable pub complete_lines : Bytes → Bytes → List Bytes
complete_lines acc [] = []
complete_lines acc (c ∷ s) = elim (c == 10) [
  | true ↦ (acc ++ c ∷ []) ∷ complete_lines [] s
  | false ↦ complete_lines (acc ++ c ∷ []) s
]

-- The first yes or no, and no where there is none.
unfoldable pub first_answer : List Bytes → Bool
first_answer [] = false
first_answer (l ∷ ls) = elim (answer l) [ none ↦ first_answer ls | some b ↦ b ]

abbrev Line : Type 0
Line = Bytes × Bytes

append_step :
    (t : Bool) (c : ℕ) (a b : Bytes) (o o' : Option Line)
    → ((l r : Bytes) → o ≡ some (l, r) → o' ≡ some (l, r ++ b))
    → (l r : Bytes) → (if t then some (c ∷ [], a) else before_line c o) ≡ some (l, r)
    → (if t then some (c ∷ [], a ++ b) else before_line c o') ≡ some (l, r ++ b)
append_step true c a b o o' ih l r h = cc
append_step false c a b none o' ih l r h = cc
append_step false c a b (some (l', r')) o' ih l r h = rw (ih l' r' refl) (cc)

take_line-append :
    (a b l r : Bytes) → take_line a ≡ some (l, r) → take_line (a ++ b) ≡ some (l, r ++ b)
unfolding take_line
take_line-append [] b l r h = cc
take_line-append (c ∷ a) b l r h =
    append_step (c == 10) c a b (take_line a) (take_line (a ++ b)) (take_line-append a b) l r h

-- What a read has found of all that was left.
view : Read → Option Line
view at_end = none
view (line l r cs) = some (l, r ++ concat cs)

view-or_end : (o : Option Line) → view (or_end o) ≡ o
unfolding view concat
view-or_end none = refl
view-or_end (some (l, r)) = rw (append-nil r) refl

view-read_string :
    (buffer : Bytes) (cs : List Bytes)
    → view (read_string buffer cs) ≡ take_line (buffer ++ concat cs)
unfolding read_string concat view
view-read_string buffer [] = rw (append-nil buffer) (view-or_end (take_line buffer))
view-read_string buffer (c ∷ cs) = elim (Option-cases (take_line buffer)) [
  | inl e ↦
      rw (e, read_string)
        (rw (append_assoc buffer c (concat cs)) at (view-read_string (buffer ++ c) cs))
  | inr (found, e) ↦
      let (l, r) = found in
      rw (e, read_string) (sym (take_line-append buffer (c ++ concat cs) l r e))
]

lines_step :
    (t : Bool) (c : ℕ) (s acc : Bytes) (o : Option Line)
    → ((acc' : Bytes) → o ≡ none → complete_lines acc' s ≡ [])
    → (if t then some (c ∷ [], s) else before_line c o) ≡ none
    → (elim t [
      | true ↦ (acc ++ c ∷ []) ∷ complete_lines [] s
      | false ↦ complete_lines (acc ++ c ∷ []) s
    ])
      ≡ []
lines_step true c s acc o ih h = cc
lines_step false c s acc none ih h = ih (acc ++ c ∷ []) refl
lines_step false c s acc (some (l, r)) ih h = cc

lines_none : (s acc : Bytes) → take_line s ≡ none → complete_lines acc s ≡ []
unfolding take_line complete_lines
lines_none [] acc h = refl
lines_none (c ∷ s) acc h =
    lines_step (c == 10) c s acc (take_line s) (λ acc' e. lines_none s acc' e) h

cons_step :
    (t : Bool) (c : ℕ) (s acc : Bytes) (o : Option Line)
    → ((acc' l r : Bytes)
        → o ≡ some (l, r)
        → complete_lines acc' s ≡ (acc' ++ l) ∷ complete_lines [] r)
    → (l r : Bytes) → (if t then some (c ∷ [], s) else before_line c o) ≡ some (l, r)
    → (elim t [
      | true ↦ (acc ++ c ∷ []) ∷ complete_lines [] s
      | false ↦ complete_lines (acc ++ c ∷ []) s
    ])
      ≡ (acc ++ l) ∷ complete_lines [] r
cons_step true c s acc o ih l r h = cc
cons_step false c s acc none ih l r h = cc
cons_step false c s acc (some (l', r')) ih l r h =
    let here = rw append_assoc at (ih (acc ++ c ∷ []) l' r' refl) in cc

lines_some :
    (s acc l r : Bytes)
    → take_line s ≡ some (l, r)
    → complete_lines acc s ≡ (acc ++ l) ∷ complete_lines [] r
unfolding take_line complete_lines
lines_some [] acc l r h = cc
lines_some (c ∷ s) acc l r h =
    cons_step (c == 10) c s acc (take_line s) (λ acc' l' r' e. lines_some s acc' l' r' e) l r h

shorter_step :
    (t : Bool) (c : ℕ) (s : Bytes) (o : Option Line)
    → ((l r : Bytes) → o ≡ some (l, r) → length r < length s)
    → (l r : Bytes) → (if t then some (c ∷ [], s) else before_line c o) ≡ some (l, r)
    → length r < suc (length s)
shorter_step true c s o ih l r h = let e : s ≡ r = cc in rw (sym e) (omega arith)
shorter_step false c s none ih l r h = cc
shorter_step false c s (some (l', r')) ih l r h =
    let e : r' ≡ r = cc in
    let below : length r' < length s = ih l' r' refl in rw (sym e) (omega (arith, below))

length-take_line : (s l r : Bytes) → take_line s ≡ some (l, r) → length r < length s
unfolding take_line
length-take_line [] l r h = cc
length-take_line (c ∷ s) l r h = shorter_step (c == 10) c s (take_line s) (length-take_line s) l r h

-- A round answers, or goes on with the rest.
Answers : Bytes → Option Answered → Type 0
Answers text r = (rest : List Bytes) × (r ≡ some (first_answer (complete_lines [] text), rest))

module _ (fuel : ℕ)
    (ih : (buffer : Bytes) (cs : List Bytes)
      → length (buffer ++ concat cs) < fuel
      → Answers (buffer ++ concat cs) (ask fuel buffer cs)) where
  Answers-answered :
      (o : Option Bool) (l r : Bytes) (cs : List Bytes)
      → answer l ≡ o
      → length (r ++ concat cs) < fuel
      → (rest : List Bytes) × (answered o cs (ask fuel r cs)
          ≡ some (first_answer (l ∷ complete_lines [] (r ++ concat cs)), rest))
  unfolding answered first_answer Answers
  Answers-answered (some b) l r cs e h = (cs, rw (e, first_answer) refl)
  Answers-answered none l r cs e h =
      let (rest, done) = ih r cs h in (rest, rw (e, first_answer) done)

  Answers-after_read :
      (q : Read) (text : Bytes)
      → view q ≡ take_line text
      → length text < suc fuel
      → Answers text (after_read (ask fuel) q)
  unfolding Answers after_read view first_answer
  Answers-after_read at_end text e h = ([], rw (lines_none text [] (sym e)) refl)
  Answers-after_read (line l r cs) text e h = rw (lines_some text [] l (r ++ concat cs) (sym e)) (
      Answers-answered (answer l) l r cs refl
        (omega (arith, length-take_line text l (r ++ concat cs) (sym e), h)))

Answers-ask :
    (fuel : ℕ) (buffer : Bytes) (cs : List Bytes)
    → length (buffer ++ concat cs) < fuel
    → Answers (buffer ++ concat cs) (ask fuel buffer cs)
unfolding ask
Answers-ask zero buffer cs h = absurd (omega arith)
Answers-ask (suc fuel) buffer cs h =
    Answers-after_read fuel (Answers-ask fuel) (read_string buffer cs) (buffer ++ concat cs)
      (view-read_string buffer cs) h

-- The question comes to an end, and its answer is the first of the lines of the input that says yes
-- or no, or no if there is none, however the input is cut into reads.
pub ask_for_confirmation_lem :
    (cs : List Bytes)
    → (rest : List Bytes) × (ask_for_confirmation cs
        ≡ some (first_answer (complete_lines [] (concat cs)), rest))
unfolding ask_for_confirmation Answers
ask_for_confirmation_lem cs = Answers-ask (suc (length (concat cs))) [] cs (omega arith)

-- All that is read at once is lost for the next question.
answered_rest :
    (o : Option Bool) (again : Option Answered)
    → ((b : Bool) (cs : List Bytes) → again ≡ some (b, cs) → cs ≡ [])
    → (b : Bool) (cs : List Bytes) → answered o [] again ≡ some (b, cs)
    → cs ≡ []
unfolding answered
answered_rest none again ih b cs h = ih b cs h
answered_rest (some b') again ih b cs h = cc

no_chunks_left :
    (fuel : ℕ) (buffer : Bytes) (b : Bool) (cs : List Bytes)
    → ask fuel buffer [] ≡ some (b, cs)
    → cs ≡ []
unfolding ask after_read read_string
no_chunks_left zero buffer b cs h = cc
no_chunks_left (suc fuel) buffer b cs h = elim (Option-cases (take_line buffer)) [
  | inl e ↦ let done = rw e at h in cc
  | inr (found, e) ↦
      let (l, r) = found in
      answered_rest (answer l) (ask fuel r []) (no_chunks_left fuel r) b cs (rw e at h)
]

denied : (b : Bool) → first_yes (some (b, [])) ≡ some false
unfolding ask_for_confirmation ask after_read read_string take_line concat
denied true = refl
denied false = refl

-- An input that arrives in one read, as from a pipe, never confirms the termination, whatever it says:
-- the second question finds nothing.
pub one_read_never_confirms : (c : Bytes) → confirm_twice (c ∷ []) ≡ some false
unfolding confirm_twice ask_for_confirmation ask after_read read_string take_line concat
one_read_never_confirms c =
    let (rest, e) = ask_for_confirmation_lem (c ∷ []) in
    let b = first_answer (complete_lines [] (concat (c ∷ []))) in
    let lost : rest ≡ [] = no_chunks_left (suc (length (c ++ []))) c b rest e in
    rw e (rw lost (denied b))

read_line :
    (l : Bytes) (cs : List Bytes)
    → take_line l ≡ some (l, [])
    → read_string [] (l ∷ cs) ≡ line l [] cs
unfolding read_string take_line
read_line l [] h = rw h refl
read_line l (c ∷ cs) h = rw (h, read_string) refl

-- A line that arrives in a read of its own, and is a yes or a no, is the answer; the reads that follow
-- are left for the next question.
pub ask_typed :
    (l : Bytes) (cs : List Bytes) (b : Bool)
    → take_line l ≡ some (l, [])
    → answer l ≡ some b
    → ask_for_confirmation (l ∷ cs) ≡ some (b, cs)
unfolding ask_for_confirmation ask after_read answered
ask_typed l cs b one_line says = rw (read_line l cs one_line, says) refl
