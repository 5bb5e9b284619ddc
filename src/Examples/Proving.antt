-- ===== src/Examples/Proving.antt =====
-- The theorems on the prover, applied to a written file of two chunks and to a pool of two threads.
use sequoia.Prelude.{ℕ, ◌+◌, ◌*◌, ◌≤◌, List, [], ◌∷◌, ◌≡◌, refl, some, arith, true, if◌then◌else◌}
use sequoia.Prelude.Int.{pos, to_i16}
use sequoia.Prelude.Bytes.{Bytes, bytes_equal, codes}
use sequoia.Prelude.Bytes.Hex.{hex_encode}
use sequoia.Prelude.Bytes.Decimal.{format_int}
use sequoia.FileSystem.Keys.{tree_key, cid_key}
use sequoia.FileSystem.Stores.{World}
use sequoia.FileSystem.Tree.{leaf, is_blake3}
use sequoia.FileSystem.Read.{load_chunk}
use sequoia.FileSystem.Write.Effects.{HasEntries, bytes_apart}
use sequoia.FileSystem.Delete.{delete_file}
use sequoia.Queue.Add.{new_queue}
use sequoia.Config.Types.{default_rate_limit_config}
use sequoia.Proofs.Generate.{gen_proof, marshalled, Generated, gen_failed, query_failed}
use sequoia.Proofs.Generate.Valid.{gen_proof_valid}
use sequoia.Proofs.Pool.{
  Prover, Pool, Runs, started, generated, here, then_, new_pool, new_prover, inc, dec, full,
}
use sequoia.Proofs.Pool.Bound.{Runs-bounded, uploads_overrun}
use sequoia.Proofs.Post.{Codec, Job, Host, wrap_post_proof}
use sequoia.Proofs.Post.Outcome.{wrap_post_proof_outcome, queue_after, gives_up}
use sequoia.Examples.Stores.{
  Pairs, pairs_db, small_ipfs, list_merkle, list_merkle-MerkleLaws, lookup,
}
use sequoia.Examples.Files.{reader, leaves, root, owner, built_lem}

-- The world after the file was written.
abbrev written : World Pairs (List ℕ)
written = record {
  db = (cid_key root, 1 ∷ []) ∷ (tree_key root owner (pos 5), root) ∷ [];
  blocks = 1 ∷ 2 ∷ 3 ∷ [];
  file_count = pos 1;
}

written_entries :
    HasEntries pairs_db small_ipfs list_merkle [] written.db
      (tree_key root owner (pos 5))
      root
      (cid_key root)
      (1 ∷ [])
unfolding lookup bytes_equal tree_key cid_key hex_encode format_int
written_entries = record {
  tree_entry = refl;
  cid_entry = refl;
  others = λ k nt nc. rw (bytes_apart k _ nc, bytes_apart k _ nt) refl;
}

gen_proof_valid_example :
    (pr : List Bytes) × (list_merkle.generate_proof leaves
        (leaf list_merkle (pos 0) (pos 1) (1 ∷ 7 ∷ []))
      ≡ some pr)
    × (list_merkle.verify_proof
          (leaf list_merkle (pos 0) (pos 1) (1 ∷ 7 ∷ []))
          pr
          (list_merkle.root leaves)
          (is_blake3 (pos 0))
        ≡ some true)
    × (gen_proof pairs_db small_ipfs list_merkle written root owner (pos 5) (pos 1) (pos 2) (pos 0)
        ≡ marshalled pairs_db small_ipfs list_merkle (1 ∷ 7 ∷ []) (list_merkle.marshal_proof pr))
unfolding load_chunk
gen_proof_valid_example =
    gen_proof_valid pairs_db small_ipfs list_merkle list_merkle-MerkleLaws [] written reader root
      owner (pos 5) (pos 0) (pos 2) leaves root 4 1 1 (1 ∷ 7 ∷ []) built_lem written_entries
      (omega arith, (omega arith, tt)) refl refl

-- Two proofs were started with two threads, and one of them was generated.
abbrev two_started : Pool
two_started = record { prover = dec (inc (inc (new_prover (pos 2)))); running = 1; uploads = 0 }

two_started_run : Runs (new_pool (pos 2)) two_started
unfolding full inc dec new_prover
two_started_run = then_ (then_ (then_ here (started refl)) (started refl)) generated

Runs-bounded_example : (1 ≤ 2 + 0) × (two_started.prover.current_threads ≡ to_i16 (1 + 65535 * 0))
Runs-bounded_example = Runs-bounded 2 two_started (omega arith) two_started_run

uploads_overrun_example :
    (p : Prover) × Runs (new_pool (pos 2)) (record { prover = p; running = 2 + 3; uploads = 3 })
uploads_overrun_example = uploads_overrun 2 3 (omega arith)

abbrev codec : Codec
codec = record {
  tx_msg_data = λ s. some (s ∷ []);
  post_response = λ s. some true;
  error_code = λ e. 2;
}

abbrev job : Job
job = record { account = codes "jkl9"; merkle = root; owner = owner; start = pos 5 }

abbrev host : Host Pairs (List ℕ)
host = record {
  prover = record { threads = pos 2; current_threads = pos 1 };
  world = written;
  queue = new_queue 0 10 (pos 0) (codes "https") default_rate_limit_config;
}

abbrev same_order : List ℕ → List ℕ
same_order cs = cs

-- The chain does not know the file.
abbrev unknown : Generated
unknown = gen_failed (query_failed 5)

wrap_post_proof_outcome_example :
    let h =
      wrap_post_proof pairs_db small_ipfs same_order 5 codec job unknown
        (host.queue.store 0)
        host in
    (h.prover ≡ dec host.prover)
    × (h.queue ≡ queue_after job host.queue unknown)
    × (h.world ≡ (
        if gives_up codec job host.queue (host.queue.store 0) unknown
        then (delete_file pairs_db small_ipfs same_order 5 written root owner (pos 5)).0
        else written))
wrap_post_proof_outcome_example =
    wrap_post_proof_outcome pairs_db small_ipfs same_order 5 codec job unknown (host.queue.store 0)
      host
