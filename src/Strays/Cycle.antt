-- ===== src/Strays/Cycle.antt =====
-- The rounds of `Start` (strays/manager.go): now and then the list is refreshed, and the idle hands take
-- strays. Times are nanoseconds; a hand is done with its stray at any time. A manager that was stopped
-- has no further round.
use sequoia.Prelude.{
  ℕ, zero, suc, ◌+◌, ◌*◌, if◌then◌else◌, Bool, true, false, not, List, [], ◌∷◌, ◌++◌, Option, none,
  some, ◌≡◌, refl, ◌∙◌, ap, subst, append_assoc, take-append-drop, Bool-cases, inl, inr,
}
use sequoia.Prelude.Int.{ℤ, pos, pos_part, neg_part, ◌+ℤ◌, ltb_ℤ, to_i64}
use sequoia.Strays.{
  Stray, Hand, StrayManager, busy, is_some, dispatch, refresh_list, take_stray, stop_manager,
}
use sequoia.Strays.Dispatch.{held, given, idle_count, dispatch_gives}

pub record Clock : Type 0 where
  pub refreshed : ℕ
  pub processed : ℕ
  pub refresh_interval : ℤ
  pub interval : ℤ

-- The times at the two tests and after what they lead to, and the answer of the query for open files.
pub record Look : Type 0 where
  pub at_refresh : ℕ
  pub after_refresh : ℕ
  pub at_hands : ℕ
  pub after_hands : ℕ
  pub answer : Option (List Stray × ℕ)

-- `time.Second * interval` as an int64.
abbrev pub seconds : ℤ → ℤ
seconds z = to_i64 (1000000000 * pos_part z + 18446744073709551615 * (1000000000 * neg_part z))

unfoldable pub is_past : ℕ → ℤ → ℕ → Bool
is_past since interval now = ltb_ℤ (pos since +ℤ seconds interval) (pos now)

-- An error of the refresh is logged, and the next one waits as long.
unfoldable pub refresh_step : Look → StrayManager × Clock → StrayManager × Clock
refresh_step l (s, c) =
    if is_past c.refreshed c.refresh_interval l.at_refresh
    then ((refresh_list l.answer s).0, record c { refreshed = l.after_refresh })
    else (s, c)

unfoldable pub hands_step : Look → StrayManager × Clock → StrayManager × Clock
hands_step l (s, c) = if not (is_past c.processed c.interval l.at_hands) then (s, c) else (
  record s { hands = (dispatch s.hands s.strays).0; strays = (dispatch s.hands s.strays).1 },
  record c { processed = l.after_hands },
)

unfoldable pub manager_round : Look → StrayManager × Clock → StrayManager × Clock
unfolding refresh_step hands_step
manager_round l (s, c) = if s.running then hands_step l (refresh_step l (s, c)) else (s, c)

-- What happens to the manager: a round of `Start`, a hand that is done with its stray, a stop.
pub data Event : Type 0 where
  round_ : Look → Event
  hand_done : ℕ → Event
  stop_ : Event

abbrev free_hand : ℕ → List Hand → List Hand
free_hand i [] = []
free_hand zero (h ∷ hs) = take_stray none h ∷ hs
free_hand (suc i) (h ∷ hs) = h ∷ free_hand i hs

-- The manager, its list after the last refresh, and the strays that were given since, in order.
pub record Hunt : Type 0 where
  pub manager : StrayManager
  pub clock : Clock
  pub list : List Stray
  pub gave : List Stray

unfoldable pub refreshes : Look → StrayManager → Clock → Bool
refreshes l s c = if s.running then is_past c.refreshed c.refresh_interval l.at_refresh else false

unfoldable pub hunt_round : Look → Hunt → Hunt
hunt_round l x =
    let (s, c) = manager_round l (x.manager, x.clock) in
    let again = refreshes l x.manager x.clock in
    record {
      manager = s;
      clock = c;
      list = if again then (refresh_step l (x.manager, x.clock)).0.strays else x.list;
      gave = (if again then [] else x.gave) ++ given x.manager.hands s.hands;
    }

unfoldable pub hunt : List Event → Hunt → Hunt
unfolding hunt_round
hunt [] x = x
hunt (round_ l ∷ es) x = hunt es (hunt_round l x)
hunt (hand_done i ∷ es) x =
    hunt es (record x { manager = record x.manager { hands = free_hand i x.manager.hands } })
hunt (stop_ ∷ es) x = hunt es (record x { manager = stop_manager x.manager })

held_idle : (s : Option Stray) → is_some s ≡ false → held s ≡ []
held_idle none idle = refl
held_idle (some x) idle = absurd cc

given_same : (hs : List Hand) → given hs hs ≡ []
given_same [] = refl
given_same (h ∷ hs) = elim (Bool-cases (busy h)) [
  | inl is_busy ↦ rw is_busy (given_same hs)
  | inr idle ↦ rw idle (ap (λ l. l ++ given hs hs) (held_idle h.stray idle) ∙ given_same hs)
]

dispatch_splits :
    (hs : List Hand) (strays : List Stray)
    → given hs (dispatch hs strays).0 ++ (dispatch hs strays).1 ≡ strays
dispatch_splits hs strays =
    let (got, left, kept) = dispatch_gives hs strays in
    rw (got, left) (take-append-drop (idle_count hs) strays)

hands_step_splits :
    (l : Look) (s : StrayManager) (c : Clock)
    → given s.hands (hands_step l (s, c)).0.hands ++ (hands_step l (s, c)).0.strays ≡ s.strays
unfolding hands_step
hands_step_splits l s c = elim (Bool-cases (is_past c.processed c.interval l.at_hands)) [
  | inl due ↦ simp (due) (dispatch_splits s.hands s.strays)
  | inr early ↦ simp (early) (ap (λ g. g ++ s.strays) (given_same s.hands))
]

refresh_list_hands :
    (a : Option (List Stray × ℕ)) (s : StrayManager) → (refresh_list a s).0.hands ≡ s.hands
unfolding refresh_list
refresh_list_hands none s = refl
refresh_list_hands (some ([], total)) s = refl
refresh_list_hands (some (f ∷ fs, total)) s = refl

-- The strays that were given since the last refresh, and those that are left, are its list.
abbrev IsKept : Hunt → Type 0
IsKept x = x.gave ++ x.manager.strays ≡ x.list

refresh_step_hands :
    (l : Look) (s : StrayManager) (c : Clock) → (refresh_step l (s, c)).0.hands ≡ s.hands
unfolding refresh_step
refresh_step_hands l s c = elim (Bool-cases (is_past c.refreshed c.refresh_interval l.at_refresh)) [
  | inl due ↦ simp (due) (refresh_list_hands l.answer s)
  | inr fresh ↦ simp (fresh) refl
]

-- A round gives strays of the list that its refresh leaves.
manager_round_splits :
    (l : Look) (s : StrayManager) (c : Clock)
    → s.running ≡ true
    → given s.hands (manager_round l (s, c)).0.hands ++ (manager_round l (s, c)).0.strays
      ≡ (refresh_step l (s, c)).0.strays
unfolding manager_round
manager_round_splits l s c on =
    let r = refresh_step l (s, c) in
    simp (on) (
      subst
        (λ (hs : List Hand).
          given hs (hands_step l r).0.hands ++ (hands_step l r).0.strays ≡ r.0.strays)
        (refresh_step_hands l s c) (hands_step_splits l r.0 r.1))

refresh_step_fresh :
    (l : Look) (s : StrayManager) (c : Clock)
    → is_past c.refreshed c.refresh_interval l.at_refresh ≡ false
    → (refresh_step l (s, c)).0.strays ≡ s.strays
unfolding refresh_step
refresh_step_fresh l s c fresh = simp (fresh) refl

manager_round_off :
    (l : Look) (s : StrayManager) (c : Clock)
    → s.running ≡ false
    → given s.hands (manager_round l (s, c)).0.hands ++ (manager_round l (s, c)).0.strays ≡ s.strays
unfolding manager_round
manager_round_off l s c off = simp (off) (ap (λ g. g ++ s.strays) (given_same s.hands))

-- A round gives strays of the list that it got, if it got one, and else of the one that was left.
round_splits :
    (l : Look) (s : StrayManager) (c : Clock)
    → given s.hands (manager_round l (s, c)).0.hands ++ (manager_round l (s, c)).0.strays
      ≡ (if refreshes l s c then (refresh_step l (s, c)).0.strays else s.strays)
unfolding refreshes
round_splits l s c = elim (Bool-cases s.running) [
  | inl on ↦ elim (Bool-cases (is_past c.refreshed c.refresh_interval l.at_refresh)) [
    | inl stale ↦ simp (on, stale) (manager_round_splits l s c on)
    | inr fresh ↦ simp (on, fresh) (manager_round_splits l s c on ∙ refresh_step_fresh l s c fresh)
  ]
  | inr off ↦ simp (off) (manager_round_off l s c off)
]

kept_on :
    (again : Bool) (gave got left before list new : List Stray)
    → got ++ left ≡ (if again then new else before)
    → gave ++ before ≡ list
    → ((if again then [] else gave) ++ got) ++ left ≡ (if again then new else list)
kept_on true gave got left before list new splits kept = splits
kept_on false gave got left before list new splits kept =
    append_assoc gave got left ∙ ap (λ r. gave ++ r) splits ∙ kept

hunt_round-IsKept : (l : Look) (x : Hunt) → IsKept x → IsKept (hunt_round l x)
unfolding hunt_round
hunt_round-IsKept l x kept =
    let m = (manager_round l (x.manager, x.clock)).0 in
    kept_on (refreshes l x.manager x.clock) x.gave (given x.manager.hands m.hands) m.strays
      x.manager.strays x.list (refresh_step l (x.manager, x.clock)).0.strays
      (round_splits l x.manager x.clock) kept

pub hunt-IsKept : (es : List Event) (x : Hunt) → IsKept x → IsKept (hunt es x)
unfolding hunt stop_manager
hunt-IsKept [] x kept = kept
hunt-IsKept (round_ l ∷ es) x kept = hunt-IsKept es (hunt_round l x) (hunt_round-IsKept l x kept)
hunt-IsKept (hand_done i ∷ es) x kept =
    hunt-IsKept es (record x { manager = record x.manager { hands = free_hand i x.manager.hands } })
      kept
hunt-IsKept (stop_ ∷ es) x kept =
    hunt-IsKept es (record x { manager = stop_manager x.manager }) kept

abbrev pub hunt_from : StrayManager → Clock → Hunt
hunt_from s c = record { manager = s; clock = c; list = s.strays; gave = [] }

-- However often the list is refreshed, the hands take strays and are done with them: the strays that were
-- given since the last refresh, in the order in which they were, and those that are left are the list
-- that the manager had after that refresh. Each stray of it goes to one hand at most, and none is passed over.
pub hunt_gives :
    (es : List Event) (s : StrayManager) (c : Clock)
    → (hunt es (hunt_from s c)).gave ++ (hunt es (hunt_from s c)).manager.strays
      ≡ (hunt es (hunt_from s c)).list
hunt_gives es s c = hunt-IsKept es (hunt_from s c) refl
