-- ===== src/Cmd/Start.antt =====
-- `StartCmd` (cmd/start.go): the application is made once, and started again when a start fails. What
-- each start returns is a parameter, `none` for no error. A log level that is not known is no error and
-- changes nothing; the pauses leave no trace.
use sequoia.Prelude.{
  ℕ, zero, suc, ◌+◌, ◌-◌, ◌≤◌, ◌<◌, Option, none, some, ◌≡◌, ◌≢◌, refl, sym, ap, ◌∙◌, subst, ◌⊎◌,
  inl, inr, arith,
}
use native.Mathlib.Decide.{dec_lt}
use sequoia.Prelude.Int.{ℤ, pos, pos_part}
use sequoia.Prelude.Bytes.{Bytes}

abbrev pub default_max_restart_attempt : ℤ
default_max_restart_attempt = pos 60

-- How often the application was started, and the error of the last start.
pub record Started : Type 0 where
  pub starts : ℕ
  pub err : Option Bytes

-- `left` restarts are left, and so many starts were made, of which the last one returned `err`.
unfoldable pub restart_loop : (ℕ → Option Bytes) → (left made : ℕ) → Option Bytes → Started
restart_loop start zero made err = record { starts = made; err = err }
restart_loop start (suc left) made none = record { starts = made; err = none }
restart_loop start (suc left) made (some e) = restart_loop start left (suc made) (start made)

-- The error of `NewApp`, or the starts. A negative number of restarts is none.
unfoldable pub start_cmd : ℤ → Option Bytes → (ℕ → Option Bytes) → Bytes ⊎ Started
start_cmd max_restart_attempt (some e) start = inl e
start_cmd max_restart_attempt none start =
    inr (restart_loop start (pos_part max_restart_attempt) 1 (start 0))

-- Every start but the last one failed, the result is that of the last, and the last one went well or was
-- the last that is allowed.
pub record Tried (start : ℕ → Option Bytes) (limit : ℕ) (r : Started) : Type 0 where
  pub some_start : 0 < r.starts
  pub bounded : r.starts ≤ limit
  pub failed_before : (i : ℕ) → suc i < r.starts → start i ≢ none
  pub last : r.err ≡ start (r.starts - 1)
  pub ended : (r.err ≡ none) ⊎ (r.starts ≡ limit)

last_made : (made : ℕ) → made ≡ suc made - 1
last_made made = omega arith

same_limit : (left made : ℕ) → suc (suc made) + left ≡ suc made + suc left
same_limit left made = omega arith

failed_so_far :
    (start : ℕ → Option Bytes) (made : ℕ) (x : Bytes)
    → start made ≡ some x
    → ((i : ℕ) → i < made → start i ≢ none)
    → (i : ℕ) → i < suc made
    → start i ≢ none
failed_so_far start made x e before i h none_here = elim (dec_lt i made) [
  | yes lt ↦ before i lt none_here
  | no ge ↦ let same : i ≡ made = omega (arith, ge) in let wrong = rw same at none_here in cc
]

loop-Tried :
    (start : ℕ → Option Bytes) (left made : ℕ) (err : Option Bytes)
    → start made ≡ err
    → ((i : ℕ) → i < made → start i ≢ none)
    → Tried start (suc made + left) (restart_loop start left (suc made) err)
unfolding restart_loop
loop-Tried start zero made err e before = record {
  some_start = omega arith;
  bounded = omega arith;
  failed_before = λ i h. before i (omega arith);
  last = sym e ∙ ap start (last_made made);
  ended = inr (omega arith);
}
loop-Tried start (suc left) made none e before = record {
  some_start = omega arith;
  bounded = omega arith;
  failed_before = λ i h. before i (omega arith);
  last = sym e ∙ ap start (last_made made);
  ended = inl refl;
}
loop-Tried start (suc left) made (some x) e before =
    subst (λ (n : ℕ). Tried start n (restart_loop start left (suc (suc made)) (start (suc made))))
      (same_limit left made)
      (loop-Tried start left (suc made) (start (suc made)) refl
        (failed_so_far start made x e before))

-- When the application could be made, it is started again until a start goes well, at most as often
-- as is allowed after the first time: all starts but the last one failed, and the result is that of the
-- last one.
pub start_cmd-Tried :
    (max_restart_attempt : ℤ) (start : ℕ → Option Bytes)
    → (r : Started) × (start_cmd max_restart_attempt none start ≡ inr r)
      × Tried start (1 + pos_part max_restart_attempt) r
unfolding start_cmd
start_cmd-Tried max_restart_attempt start = (
  restart_loop start (pos_part max_restart_attempt) 1 (start 0),
  refl,
  loop-Tried start (pos_part max_restart_attempt) 0 (start 0) refl (λ i h. absurd (omega arith)),
)
