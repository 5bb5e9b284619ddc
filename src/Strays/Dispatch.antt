-- ===== src/Strays/Dispatch.antt =====
-- Each stray goes to one hand, in order (`Start` and `Pop` of strays/manager.go).
use sequoia.Prelude.{
  ℕ, zero, suc, ◌∙◌, ◌≡◌, refl, if◌then◌else◌, true, List, [], ◌∷◌, ◌++◌, Option, none, some, take,
  drop, Bool-cases, inl, inr, ap,
}
use sequoia.Strays.{Stray, Hand, busy, pop, dispatch}

-- How many hands are idle.
abbrev pub idle_count : List Hand → ℕ
idle_count [] = 0
idle_count (h ∷ hs) = if busy h then idle_count hs else suc (idle_count hs)

abbrev pub held : Option Stray → List Stray
held none = []
held (some s) = s ∷ []

-- What the hands hold that were idle before.
abbrev pub given : List Hand → List Hand → List Stray
given [] _ = []
given (h ∷ hs) [] = []
given (h ∷ hs) (k ∷ ks) = if busy h then given hs ks else held k.stray ++ given hs ks

-- The hands that were busy are as they were.
abbrev pub Keeps : List Hand → List Hand → Type 0
Keeps [] [] = Unit {0}
Keeps [] (k ∷ ks) = ⊥
Keeps (h ∷ hs) [] = ⊥
Keeps (h ∷ hs) (k ∷ ks) = ((busy h ≡ true) → k ≡ h) × Keeps hs ks

take_none : (n : ℕ) → take {A = Stray} n [] ≡ []
take_none zero = refl
take_none (suc n) = refl

drop_none : (n : ℕ) → drop {A = Stray} n [] ≡ []
drop_none zero = refl
drop_none (suc n) = refl

-- One round gives the idle hands, in their order, the first strays of the list, one each and as far
-- as they go, and keeps the others in the list; the busy hands keep theirs.
pub dispatch_gives :
    (hs : List Hand) (strays : List Stray)
    → (given hs (dispatch hs strays).0 ≡ take (idle_count hs) strays)
      × ((dispatch hs strays).1 ≡ drop (idle_count hs) strays)
      × Keeps hs (dispatch hs strays).0
unfolding dispatch pop
dispatch_gives [] strays = (refl, refl, tt)
dispatch_gives (h ∷ hs) [] =
    let (got, left, kept) = dispatch_gives hs [] in
    elim (Bool-cases (busy h)) [
      | inl is_busy ↦ rw (is_busy, is_busy) (got, left, (λ b. refl, kept))
      | inr idle ↦
          rw (idle, idle)
            (got ∙ take_none (idle_count hs), left ∙ drop_none (idle_count hs), (λ b. cc, kept))
    ]
dispatch_gives (h ∷ hs) (x ∷ xs) = elim (Bool-cases (busy h)) [
  | inl is_busy ↦
      let (got, left, kept) = dispatch_gives hs (x ∷ xs) in
      rw (is_busy, is_busy) (got, left, (λ b. refl, kept))
  | inr idle ↦
      let (got, left, kept) = dispatch_gives hs xs in
      rw (idle, idle) (ap (λ l. x ∷ l) got, left, (λ b. cc, kept))
]
