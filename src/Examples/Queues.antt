-- ===== src/Examples/Queues.antt =====
-- The theorems on the queue, applied to two proofs of which one is added twice.
use Prim.Native.Nat.{min, max}
use sequoia.Prelude.{
  ℕ, ◌<◌, List, [], ◌∷◌, ◌≡◌, ◌≢◌, refl, Option, none, some, arith, true, false, contains, length,
  take,
}
use sequoia.Prelude.Int.{pos, ◌≤ℤ◌}
use sequoia.Prelude.Bytes.{bytes_equal, contains_text, codes}
use sequoia.Config.Types.{default_rate_limit_config}
use sequoia.Queue.Types.{PostProof, Msg, post_proof, Queue, TxResponse}
use sequoia.Queue.Batch.{
  IsGreedy, select_cutoff, calculate_transaction_size, select_cutoff-IsGreedy,
}
use sequoia.Queue.Add.{add, new_queue, is_duplicate, any_clash, clashes, same_contract}
use sequoia.Queue.Broadcast.{
  Chain, total, returned, panicked, attempts, Outcome, broadcast_pending, batch_of, Ending, emptied,
  completed,
}
use sequoia.Queue.Broadcast.Waiters.{
  IsSound, IsDelivered, add-IsSound, new_queue-IsSound, ending_of,
}
use sequoia.Queue.Broadcast.Runs.{
  Event, adds, broadcasts, run, step, lost_in, run-IsSound, emptied_strands,
  broadcast_pending_delivers, error_of_ending, res_of_ending,
}
use sequoia.Queue.Broadcast.Unique.{SameContract, run_unique}
use sequoia.Queue.Listen.{Round}
use sequoia.Queue.Broadcast.During.{broadcast_during, then_add}
use sequoia.Queue.Broadcast.During.Commute.{adds_commute}

abbrev proof_of : ℕ → PostProof
proof_of n = record {
  creator = codes "jkl9";
  item = 1 ∷ [];
  hash_list = 2 ∷ [];
  merkle = n ∷ [];
  owner = codes "jkl1";
  start = pos 5;
  to_prove = pos 0;
}

abbrev accepted : Chain
accepted = record {
  mempool = total (pos 3);
  broadcast = λ n d. record {
    res = some (record { code = 0; raw_log = []; tx_hash = 7 ∷ []; data_hex = [] });
    err = none;
  };
}

abbrev full_mempool : Chain
full_mempool = record {
  mempool = total (pos 3);
  broadcast = λ n d. record { res = none; err = some (codes "mempool is full") };
}

abbrev empty_queue : Queue
empty_queue = new_queue 0 10 (pos 0) (codes "https") default_rate_limit_config

abbrev events : List Event
events =
    adds (post_proof (proof_of 1))
    ∷ adds (post_proof (proof_of 2))
    ∷ adds (post_proof (proof_of 1))
    ∷ []

abbrev two_proofs : Queue
two_proofs =
    (add (post_proof (proof_of 1))
      (add (post_proof (proof_of 2)) (add (post_proof (proof_of 1)) empty_queue).0).0).0

run-IsSound_example :
    (q : Queue) × (run (broadcasts accepted ∷ events) empty_queue ≡ some q)
    × IsSound (lost_in (broadcasts accepted ∷ events) empty_queue) q
run-IsSound_example =
    run-IsSound 0 10 (pos 0) (codes "https") default_rate_limit_config
      (broadcasts accepted ∷ events)

run_unique_example : ¬ SameContract (proof_of 1) (proof_of 2)
unfolding new_queue run step add is_duplicate any_clash clashes same_contract bytes_equal
run_unique_example =
    run_unique 0 10 (pos 0) (codes "https") default_rate_limit_config events two_proofs 0 1
      (proof_of 1) (proof_of 2) refl refl refl (omega arith) refl refl

two_proofs-IsSound : IsSound [] two_proofs
two_proofs-IsSound = add-IsSound [] (post_proof (proof_of 1)) _ (
    add-IsSound [] (post_proof (proof_of 2)) _ (
      add-IsSound [] (post_proof (proof_of 1)) _
        (new_queue-IsSound 0 10 (pos 0) (codes "https") default_rate_limit_config)))

completed_apart : (e : Ending) (r : Option TxResponse) → e ≡ completed r → e ≢ emptied
completed_apart e r c h = cc

not_emptied : ending_of accepted two_proofs ≢ emptied
unfolding attempts
not_emptied = completed_apart _ _ refl

broadcast_pending_delivers_example :
    (q : Queue) × (broadcast_pending accepted two_proofs
      ≡ returned q (length (batch_of two_proofs)) (error_of_ending (ending_of accepted two_proofs)))
    × IsDelivered two_proofs q
        (error_of_ending (ending_of accepted two_proofs))
        (res_of_ending (ending_of accepted two_proofs))
broadcast_pending_delivers_example =
    broadcast_pending_delivers [] two_proofs accepted two_proofs-IsSound refl not_emptied

emptied_strands_example :
    (q : Queue) × (run (broadcasts full_mempool ∷ events) two_proofs ≡ some q)
    × ((q.store 0).wg ≡ 1)
    × (contains 0 q.messages ≡ false)
unfolding new_queue add is_duplicate any_clash clashes same_contract bytes_equal attempts
    contains_text
emptied_strands_example =
    emptied_strands [] two_proofs full_mempool events 0 two_proofs-IsSound refl refl refl

adds_commute_example :
    broadcast_during [] (post_proof (proof_of 7) ∷ []) accepted two_proofs
    ≡ then_add (post_proof (proof_of 7) ∷ []) (broadcast_pending accepted two_proofs)
adds_commute_example =
    adds_commute [] (post_proof (proof_of 7) ∷ []) accepted two_proofs two_proofs-IsSound
      not_emptied

abbrev round : Round
round = record { now = 100; later = 120; allowed = true; chain = accepted }

abbrev queue_of : Outcome → Queue
queue_of (returned q n err) = q
queue_of panicked = empty_queue

abbrev settled_queue : Queue
settled_queue = queue_of (broadcast_pending accepted two_proofs)

settled_lem : broadcast_pending accepted two_proofs ≡ returned settled_queue 2 none
unfolding broadcast_pending new_queue add is_duplicate any_clash clashes same_contract bytes_equal
    attempts select_cutoff calculate_transaction_size
settled_lem = refl

abbrev three_messages : List Msg
three_messages = post_proof (proof_of 1) ∷ post_proof (proof_of 2) ∷ post_proof (proof_of 3) ∷ []

select_cutoff-IsGreedy_example :
    (k : ℕ) × IsGreedy (pos 10) three_messages k
    × (select_cutoff (pos 10) three_messages ≡ min (max 45 k) (length three_messages))
    × (45 < select_cutoff (pos 10) three_messages
        → calculate_transaction_size (take (select_cutoff (pos 10) three_messages) three_messages)
          ≤ℤ pos 10)
select_cutoff-IsGreedy_example = select_cutoff-IsGreedy (pos 10) three_messages
