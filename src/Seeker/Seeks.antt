-- ===== src/Seeker/Seeks.antt =====
-- `Seek` stays within the data (types/bytes_seeker.go).
use sequoia.Prelude.{ℕ, ◌≡◌, refl, inl, inr, none, some, arith, length, Bool-cases, if◌then◌else◌}
use sequoia.Prelude.Int.{ℤ, pos, ◌≤ℤ◌, ltb_ℤ}
use sequoia.Seeker.{
  BytesSeeker, Sought, sought, not_sought, negative_position, invalid_whence, target, clamp, move,
  seek,
}

-- The position is within the data or at its end.
abbrev pub IsInBounds : BytesSeeker → Type 0
IsInBounds b = (pos 0 ≤ℤ b.at) × (b.at ≤ℤ pos (length b.data_))

-- What a seek to `z` is to do: it moves to `z`, or to the end of the data when `z` is behind it, and
-- says where it is; a `z` before the start is an error and moves nothing.
abbrev pub Moves : ℤ → BytesSeeker → BytesSeeker × Sought → Type 0
Moves z b (b', s) =
    (b'.data_ ≡ b.data_)
    × IsInBounds b'
    × (if ltb_ℤ z (pos 0)
        then (b'.at ≡ b.at) × (s ≡ not_sought negative_position)
        else (s ≡ sought b'.at)
          × (b'.at ≡ (if ltb_ℤ (pos (length b.data_)) z then pos (length b.data_) else z)))

move-Moves : (z : ℤ) (b : BytesSeeker) → IsInBounds b → Moves z b (move (some z) b)
unfolding move clamp
move-Moves z b v = elim (Bool-cases (ltb_ℤ z (pos 0))) [
  | inl before ↦ rw before (refl, v, (refl, refl))
  | inr fits ↦ elim (Bool-cases (ltb_ℤ (pos (length b.data_)) z)) [
    | inl behind ↦ rw (fits, behind) (refl, (omega arith, omega arith), (refl, refl))
    | inr within ↦ rw (fits, within) (refl, (ground arith, ground arith), (refl, refl))
  ]
]

-- From a position within the data, `Seek` stays within it and keeps the data: a known `whence` moves
-- to its target as far as the data goes, a target before the start is an error, and an unknown
-- `whence` is one that changes nothing.
pub seek-Moves :
    (offset : ℤ) (whence : ℕ) (b : BytesSeeker)
    → IsInBounds b
    → ((z : ℤ) → target offset whence b ≡ some z → Moves z b (seek offset whence b))
      × (target offset whence b ≡ none → seek offset whence b ≡ (b, not_sought invalid_whence))
unfolding seek
seek-Moves offset whence b v = (λ z e. rw e (move-Moves z b v), λ e. unfold move in rw e refl)
