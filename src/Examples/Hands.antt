-- ===== src/Examples/Hands.antt =====
-- The theorem on a hand's round, applied to a stray that another provider has.
use sequoia.Prelude.{List, [], ◌∷◌, refl, none, some, true, ℕ}
use sequoia.Prelude.Int.{pos}
use sequoia.Prelude.Bytes.{codes}
use sequoia.FileSystem.Read.{check_tree}
use sequoia.Queue.Add.{new_queue}
use sequoia.Config.Types.{default_rate_limit_config}
use sequoia.Strays.{Stray}
use sequoia.Strays.Rounds.{Desk, hand_round}
use sequoia.Strays.Claims.{Outcome, hand_round-Outcome}
use sequoia.Examples.Stores.{Pairs, pairs_db, small_ipfs, list_merkle}
use sequoia.Examples.Files.{root, owner}
use sequoia.Examples.Downloads.{decoders, me, attempt, empty}

abbrev stray : Stray
stray = record {
  merkle = root;
  owner = owner;
  start = pos 5;
  proof_type = pos 0;
  file_size = pos 4;
}

abbrev desk : Desk Pairs (List ℕ)
desk = record {
  hand = record { offset = 1; stray = some stray; running = true };
  awaits = none;
  world = empty;
  queue = new_queue 0 10 (pos 0) (codes "https") default_rate_limit_config;
}

hand_round-Outcome_example :
    Outcome pairs_db small_ipfs list_merkle decoders attempt [] me
      (pos 2)
      (λ merkle. some (me ∷ codes "b" ∷ []))
      (λ s. tt)
      (codes "jkl9")
      stray
      (check_tree pairs_db small_ipfs list_merkle empty root owner (pos 5))
      desk
      (hand_round pairs_db small_ipfs list_merkle decoders attempt [] me
        (pos 2)
        (λ merkle. some (me ∷ codes "b" ∷ []))
        (λ s. tt)
        (codes "jkl9")
        desk)
hand_round-Outcome_example =
    hand_round-Outcome pairs_db small_ipfs list_merkle decoders attempt [] me (pos 2)
      (λ merkle. some (me ∷ codes "b" ∷ [])) (λ s. tt) (codes "jkl9") stray desk refl refl refl
