-- ===== src/Prelude/Bytes/Join.antt =====
-- The split of a text that is put together.
use mathlib.Core.Path.{◌≡◌, refl}
use mathlib.Core.Logic.{inl, inr}
use mathlib.Core.List.{List, [], ◌∷◌, ◌++◌}
use Prim.Native.Nat.{ℕ}
use native.Mathlib.Omega.{arith}
use sequoia.Prelude.Tests.{◌==◌, Bool-cases}
use sequoia.Prelude.Bytes.Split.{split}

-- A split has a first part.
split_cons : (sep : ℕ) (s : List ℕ) → (p : List ℕ) × (ps : List (List ℕ)) × (split sep s ≡ p ∷ ps)
unfolding split
split_cons sep [] = ([], [], refl)
split_cons sep (c ∷ s) = elim (Bool-cases (c == sep)) [
  | inl here ↦ ([], split sep s, rw here refl)
  | inr other ↦ let (p, ps, e) = split_cons sep s in (c ∷ p, ps, rw (other, e) refl)
]

-- At a separator, the parts before it come before the parts after it.
pub split_at : (sep : ℕ) (s t : List ℕ) → split sep (s ++ (sep ∷ t)) ≡ split sep s ++ split sep t
unfolding split
split_at sep [] t = ground arith
split_at sep (c ∷ s) t =
    let ih = split_at sep s t in
    elim (Bool-cases (c == sep)) [
      | inl here ↦ rw (here, ih) refl
      | inr other ↦ let (p, ps, e) = split_cons sep s in rw (other, ih, e) refl
    ]
