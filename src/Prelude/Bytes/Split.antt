-- ===== src/Prelude/Bytes/Split.antt =====
-- `strings.Split` at one separator byte.
use Prim.Native.Nat.{ℕ}
use mathlib.Core.Path.{◌≡◌, refl}
use mathlib.Core.Logic.{◌≢◌}
use mathlib.Core.List.{List, [], ◌∷◌, ◌++◌}
use native.Mathlib.Omega.{arith}
use sequoia.Prelude.Tests.{◌==◌, if◌then◌else◌}
use sequoia.Prelude.Lists.{All}

abbrev pub push_front : ℕ → List (List ℕ) → List (List ℕ)
push_front c [] = (c ∷ []) ∷ []
push_front c (p ∷ ps) = (c ∷ p) ∷ ps

unfoldable pub split : ℕ → List ℕ → List (List ℕ)
split sep [] = [] ∷ []
split sep (c ∷ s) = let rest = split sep s in if c == sep then [] ∷ rest else push_front c rest

-- A part that lacks the separator is split off whole.
pub split-append :
    (sep : ℕ) (p rest : List ℕ)
    → All (λ c. c ≢ sep) p
    → split sep (p ++ (sep ∷ rest)) ≡ p ∷ split sep rest
unfolding split
split-append sep [] rest h = ground arith
split-append sep (c ∷ p) rest h = ground (arith, split-append sep p rest h.1)

pub split_last : (sep : ℕ) (p : List ℕ) → All (λ c. c ≢ sep) p → split sep p ≡ p ∷ []
unfolding split
split_last sep [] h = refl
split_last sep (c ∷ p) h = ground (arith, split_last sep p h.1)
