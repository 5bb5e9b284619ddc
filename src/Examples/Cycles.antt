-- ===== src/Examples/Cycles.antt =====
-- The theorems on the prover's rounds, the stray manager and the byte reader, applied.
use sequoia.Prelude.{
  ℕ, List, [], ◌∷◌, ◌++◌, ◌≡◌, ◌≢◌, refl, none, ◌*◌, some, arith, true, length, All,
}
use sequoia.Prelude.Int.{pos}
use sequoia.Prelude.Bytes.{Bytes, codes}
use sequoia.Proofs.Pool.{new_prover}
use sequoia.Proofs.Round.{CycleState, Look}
use sequoia.Strays.{Stray, Hand, StrayManager, refresh_list, dispatch, pop, stop_manager}
use sequoia.Strays.Cycle
use sequoia.Strays.Cycle.{
  Clock, Event, round_, hand_done, stop_, hunt, hunt_from, hunt_gives, hunt_round, manager_round,
  refresh_step, hands_step, is_past, refreshes,
}
use sequoia.Seeker.{BytesSeeker, read_loop}
use sequoia.Seeker.Reads.{joined, read_loop-joined}

abbrev rested : CycleState
rested = record {
  last_run = 100000000000;
  interval = 60;
  last_count = 3;
  prover = new_prover (pos 4);
}

-- Half an hour has passed, and nobody else moves the count.
abbrev look : Look
look = record {
  now = 3000000000000;
  later = 3010000000000;
  queue_count = 9;
  height = some (pos 77);
  unconfirmed = some (pos 2000);
  room = λ n p. p;
}

abbrev stray_of : ℕ → Stray
stray_of n = record {
  merkle = n ∷ [];
  owner = codes "jkl1";
  start = pos 5;
  proof_type = pos 0;
  file_size = pos 10;
}

-- The second of three hands is busy.
abbrev hands : List Hand
hands =
    record { offset = 1; stray = none; running = true }
    ∷ record { offset = 2; stray = some (stray_of 9); running = true }
    ∷ record { offset = 3; stray = none; running = true }
    ∷ []

abbrev three_strays : List Stray
three_strays = stray_of 1 ∷ stray_of 2 ∷ stray_of 3 ∷ []

abbrev manager : StrayManager
manager = record { strays = three_strays; last_size = 3; running = true; hands = hands }

abbrev clock : Clock
clock = record { refreshed = 100; processed = 100; refresh_interval = pos 120; interval = pos 20 }

-- A time in seconds at which the manager looks, and what the chain answers.
look_at : ℕ → List Stray → Cycle.Look
look_at t found = record {
  at_refresh = 1000000000 * t;
  after_refresh = 1000000000 * t;
  at_hands = 1000000000 * t;
  after_hands = 1000000000 * t;
  answer = some (found, 3);
}

-- The first hand is done between two rounds, and later the list is refreshed.
abbrev events : List Event
events =
    round_ (look_at 30 [])
    ∷ hand_done 0
    ∷ round_ (look_at 60 [])
    ∷ hand_done 0
    ∷ round_ (look_at 150 (stray_of 5 ∷ stray_of 6 ∷ []))
    ∷ stop_
    ∷ []

hunted_manager : (hunt events (hunt_from manager clock)).gave ≡ stray_of 5 ∷ []
unfolding hunt hunt_round manager_round refresh_step hands_step is_past refreshes refresh_list
    dispatch pop stop_manager look_at
hunted_manager = refl

hunt_gives_example :
    (hunt events (hunt_from manager clock)).gave
      ++ (hunt events (hunt_from manager clock)).manager.strays
    ≡ (hunt events (hunt_from manager clock)).list
hunt_gives_example = hunt_gives events manager clock

abbrev five_bytes : BytesSeeker
five_bytes = record { data_ = 1 ∷ 2 ∷ 3 ∷ 4 ∷ 5 ∷ []; at = pos 3 }

read_loop-joined_example :
    (rs : List Bytes) × (read_loop 6 2 (record { data_ = 1 ∷ 2 ∷ 3 ∷ 4 ∷ 5 ∷ []; at = pos 0 })
      ≡ some rs)
    × (joined rs ≡ 1 ∷ 2 ∷ 3 ∷ 4 ∷ 5 ∷ [])
    × All (λ (r : Bytes). length r ≢ 0) rs
read_loop-joined_example =
    read_loop-joined 6 2 0 (1 ∷ 2 ∷ 3 ∷ 4 ∷ 5 ∷ []) (omega arith) (omega arith) (omega arith)
      (omega arith)
