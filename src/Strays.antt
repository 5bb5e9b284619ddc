-- ===== src/Strays.antt =====
-- The stray manager and its hands (strays/), which claim files that have too few providers. The
-- answer of the query for open files and the random numbers are parameters.
pub mod Dispatch
pub mod Cycle
pub mod Rounds
pub mod Claims
pub mod Authorise
use sequoia.Prelude.{
  ℕ, suc, ◌+◌, ◌%◌, if◌then◌else◌, Bool, true, false, not, List, [], ◌∷◌, ◌++◌, Option, none, some,
  length, ltb, ◌==◌,
}
use sequoia.Prelude.Int.{ℤ}
use sequoia.Prelude.Bytes.{Bytes}

-- `types.UnifiedFile`, the fields that a hand reads.
pub record Stray : Type 0 where
  pub merkle : Bytes
  pub owner : Bytes
  pub start : ℤ
  pub proof_type : ℤ
  pub file_size : ℤ

pub record Hand : Type 0 where
  pub offset : ℕ
  pub stray : Option Stray
  pub running : Bool

pub record StrayManager : Type 0 where
  pub strays : List Stray
  pub last_size : ℕ
  pub running : Bool
  pub hands : List Hand

abbrev pub max_return : ℕ
max_return = 500

abbrev pub is_some : Option Stray → Bool
is_some none = false
is_some (some s) = true

-- `Busy`, `Take` and `Stop` of a hand.
abbrev pub busy : Hand → Bool
busy h = is_some h.stray

abbrev pub take_stray : Option Stray → Hand → Hand
take_stray s h = record h { stray = s }

abbrev pub stop_hand : Hand → Hand
stop_hand h = record h { running = false }

-- The offset is a byte: it is one more than the number of hands, modulo 256. The wallet that it
-- clones may refuse.
unfoldable pub new_hand : Bool → StrayManager → StrayManager × Option Hand
new_hand cloned s =
    let h : Hand = record {
      offset = (length s.hands % 256 + 1) % 256;
      stray = none;
      running = false;
    } in
    if cloned then (record s { hands = s.hands ++ h ∷ [] }, some h) else (s, none)

-- The first stray, which leaves the list.
unfoldable pub pop : List Stray → List Stray × Option Stray
pop [] = ([], none)
pop (x ∷ xs) = (xs, some x)

-- Each hand that is not busy takes what is popped, also when that is nothing.
unfoldable pub dispatch : List Hand → List Stray → List Hand × List Stray
unfolding pop
dispatch [] strays = ([], strays)
dispatch (h ∷ hs) strays =
    let (left, s) = pop strays in
    let idle = dispatch hs left in
    let passed = dispatch hs strays in
    if busy h then (h ∷ passed.0, passed.1) else (take_stray s h ∷ idle.0, idle.1)

stop_all : List Hand → List Hand
stop_all [] = []
stop_all (h ∷ hs) = stop_hand h ∷ stop_all hs

unfoldable pub stop_manager : StrayManager → StrayManager
unfolding stop_all
stop_manager s = record s { running = false; hands = stop_all s.hands }

-- The page that is asked for: from a random place, perhaps backwards, when there are more strays
-- than one page holds. `pick n` is `rand.Int63n(n)`, and `flip` is whether `rand.Intn(2)` is 0.
pub record Page : Type 0 where
  pub offset : ℕ
  pub limit : ℕ
  pub reverse : Bool

unfoldable pub page_for : (ℕ → ℕ) → Bool → StrayManager → Page
page_for pick flip s =
    if ltb max_return s.last_size
    then record { offset = pick s.last_size; limit = max_return; reverse = flip }
    else record { offset = 0; limit = max_return; reverse = false }

-- The files and the total, or an error. No files leave the list as it is.
unfoldable pub refresh_list : Option (List Stray × ℕ) → StrayManager → StrayManager × Bool
refresh_list none s = (s, false)
refresh_list (some ([], total)) s = (record s { last_size = total }, true)
refresh_list (some (f ∷ fs, total)) s = (record s { last_size = total; strays = f ∷ fs }, true)
