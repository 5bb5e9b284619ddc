-- ===== src/Proofs/Round.antt =====
-- A round of the prover's loop (`Start` of proofs/proofs.go). Times are in nanoseconds. What the
-- chain and the queue answer in the round is a parameter, and so is what other proofs make of the count
-- of running proofs while a file waits for room: a wait that does not end is a round that does not.
use sequoia.Prelude.{
  ℕ, zero, suc, ◌+◌, ◌*◌, ◌%◌, ◌<◌, ◌≤◌, ◌⊎◌, if◌then◌else◌, Bool, true, false, not, ◌&&◌, List, [],
  ◌∷◌, ◌++◌, ◌≡◌, Option, none, some, length, ltb,
}
use sequoia.Prelude.Int.{ℤ, pos, ◌+ℤ◌, ltb_ℤ, to_i64}
use sequoia.FileSystem.Keys.{Contract}
use sequoia.Proofs.Pool.{Prover, inc}
use sequoia.FileSystem.Stores.{Badger}
use sequoia.FileSystem.Listing.{Processed, processed, process_failed, process_panic, process_files}

-- The fields of the prover that the loop keeps from round to round.
pub record CycleState : Type 0 where
  pub last_run : ℕ
  pub interval : ℕ
  pub last_count : ℕ
  pub prover : Prover

-- The height and the size of the mempool are missing when the node does not answer. `room` is the prover
-- when the wait of the file of that place ends, from the prover when it begins.
pub record Look : Type 0 where
  pub now : ℕ
  pub later : ℕ
  pub queue_count : ℕ
  pub height : Option ℤ
  pub unconfirmed : Option ℤ
  pub room : ℕ → Prover → Prover

-- `time.Second * time.Duration(p.interval+10)`: a sum of uint64 and a product of int64.
unfoldable pub pause : ℕ → ℤ
pause interval = to_i64 (1000000000 * ((interval + 10) % 18446744073709551616))

-- The interval and ten seconds more have passed.
unfoldable pub is_rested : CycleState → Look → Bool
unfolding pause
is_rested s l = ltb_ℤ (pos s.last_run +ℤ pause s.interval) (pos l.now)

-- In the first half hour, the queue holds more messages than the last cycle had files.
unfoldable pub is_backlogged : CycleState → Look → Bool
is_backlogged s l =
    not (ltb (s.last_run + 1800000000000) l.now)
    && (ltb 0 s.last_count && ltb s.last_count l.queue_count)

-- The prover, and the files whose proofs were started.
pub record Begun : Type 0 where
  pub prover : Prover
  pub started : List Contract

-- The callback waits for room, counts the proof and starts it.
unfoldable pub start_proof : (ℕ → Prover → Prover) → Contract → Begun → Begun
start_proof room c b = record {
  prover = inc (room (length b.started) b.prover);
  started = b.started ++ c ∷ [];
}

-- An error of `ProcessFiles` is logged, and the cycle counts.
unfoldable pub closed :
    CycleState → Look → ℤ → Processed Begun → CycleState × Option (ℤ × List Contract)
closed s l h (processed d) = (
  record s { last_count = length d.started; last_run = l.later; prover = d.prover },
  some (h, d.started),
)
closed s l h (process_failed d) = (
  record s { last_count = length d.started; last_run = l.later; prover = d.prover },
  some (h, d.started),
)
closed s l h process_panic = (s, none)

unfoldable pub by_mempool :
    (b : Badger) → b.Db → CycleState → Look → ℤ → Option ℤ → CycleState × Option (ℤ × List Contract)
unfolding closed
by_mempool b db s l h none = (s, none)
by_mempool b db s l h (some total) =
    if ltb_ℤ (pos 2000) total
    then (s, none)
    else closed s l h
        (process_files b (start_proof l.room) db (record { prover = s.prover; started = [] }))

unfoldable pub by_height :
    (b : Badger) → b.Db → CycleState → Look → Option ℤ → CycleState × Option (ℤ × List Contract)
unfolding by_mempool
by_height b db s l none = (s, none)
by_height b db s l (some h) = by_mempool b db s l h l.unconfirmed

-- The state for the next round, and the height and the proofs that were started, if it was a cycle.
unfoldable pub cycle_round :
    (b : Badger) → b.Db → CycleState → Look → CycleState × Option (ℤ × List Contract)
unfolding by_height
cycle_round b db s l =
    if not (is_rested s l)
    then (s, none)
    else if is_backlogged s l
    then (s, none)
    else by_height b db s l l.height

-- The prover after so many files, from the one of a place on.
abbrev pub counted_in : (ℕ → Prover → Prover) → (place files : ℕ) → Prover → Prover
counted_in room place zero p = p
counted_in room place (suc n) p = counted_in room (suc place) n (inc (room place p))

-- The prover is not waiting, has no backlog, and the node answers that it is at a height and has few
-- transactions in the mempool.
pub record IsDue (s : CycleState) (l : Look) (h : ℤ) : Type 0 where
  pub rested : is_rested s l ≡ true
  pub free :
      (s.last_run + 1800000000000 < l.now) ⊎ ((s.last_count ≡ 0) ⊎ (l.queue_count ≤ s.last_count))
  pub at_height : l.height ≡ some h
  pub total : ℤ
  pub answered : l.unconfirmed ≡ some total
  pub few : ltb_ℤ (pos 2000) total ≡ false
