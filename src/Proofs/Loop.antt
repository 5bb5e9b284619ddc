-- ===== src/Proofs/Loop.antt =====
-- The loop of `Start` and `Stop` (proofs/proofs.go): rounds as long as the prover runs.
use sequoia.Prelude.{
  if◌then◌else◌, Bool, true, false, List, [], ◌∷◌, ◌++◌, Option, none, some, ◌≡◌, refl, ap,
}
use sequoia.Prelude.Int.{ℤ}
use sequoia.FileSystem.Keys.{Contract}
use sequoia.FileSystem.Stores.{Badger}
use sequoia.Proofs.Round.{CycleState, Look, cycle_round}

pub record ProverLoop : Type 0 where
  pub running : Bool
  pub cycle : CycleState

unfoldable pub stop_prover : ProverLoop → ProverLoop
stop_prover p = record p { running = false }

abbrev pub Cycle : Type 0
Cycle = ℤ × List Contract

abbrev cycles_of : Option Cycle → List Cycle
cycles_of none = []
cycles_of (some c) = c ∷ []

-- Between two rounds the files on disk may have changed.
pub data Happening (Db : Type 0) : Type 0 where
  round_ : Db → Look → Happening Db
  stop_ : Happening Db

module _ (b : Badger) where
  open b use {Db}

  abbrev after_round : CycleState × Option Cycle → ProverLoop × List Cycle
  after_round (s, c) = (record { running = true; cycle = s }, cycles_of c)

  unfoldable pub loop_round : Db → Look → ProverLoop → ProverLoop × List Cycle
  unfolding cycle_round
  loop_round db l p = if p.running then after_round (cycle_round b db p.cycle l) else (p, [])

  -- The cycles that were run, in order.
  unfoldable pub prove_loop : List (Happening Db) → ProverLoop → List Cycle
  unfolding stop_prover
  prove_loop [] p = []
  prove_loop (stop_ ∷ hs) p = prove_loop hs (stop_prover p)
  prove_loop (round_ db l ∷ hs) p = let (p', cs) = loop_round db l p in cs ++ prove_loop hs p'

  -- `Start` sets the prover running, also after an earlier stop.
  unfoldable pub start_prover : List (Happening Db) → ProverLoop → List Cycle
  unfolding prove_loop
  start_prover hs p = prove_loop hs (record p { running = true })

  stopped :
      (hs : List (Happening Db)) (c : CycleState)
      → prove_loop hs (record { running = false; cycle = c }) ≡ []
  unfolding prove_loop loop_round
  stopped [] c = refl
  stopped (stop_ ∷ hs) c = stopped hs c
  stopped (round_ db l ∷ hs) c = stopped hs c

  ends_at_stop :
      (before after : List (Happening Db)) (p : ProverLoop)
      → prove_loop (before ++ stop_ ∷ after) p ≡ prove_loop before p
  unfolding prove_loop
  ends_at_stop [] after p = stopped after p.cycle
  ends_at_stop (stop_ ∷ before) after p = ends_at_stop before after (stop_prover p)
  ends_at_stop (round_ db l ∷ before) after p =
      ap (λ r. (loop_round db l p).1 ++ r) (ends_at_stop before after (loop_round db l p).0)

  -- What comes after a stop, while the prover is not started again, starts no proof.
  pub stop_ends_cycles :
      (before after : List (Happening Db)) (p : ProverLoop)
      → start_prover (before ++ stop_ ∷ after) p ≡ start_prover before p
  unfolding start_prover
  stop_ends_cycles before after p = ends_at_stop before after (record p { running = true })
