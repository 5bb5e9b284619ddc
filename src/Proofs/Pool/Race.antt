-- ===== src/Proofs/Pool/Race.antt =====
-- `Inc` and `Dec` (proofs/types.go) run in several goroutines without a lock: each reads the count and
-- writes it later. The steps of the pool are the runs in which no two of them overlap.
use sequoia.Prelude.{
  ℕ, zero, suc, ◌+◌, ◌*◌, ◌≤◌, ◌≡◌, ◌∙◌, subst, not, refl, arith, false, List, [], ◌∷◌,
}
use sequoia.Prelude.Int.{ℤ, pos, ◌+ℤ◌, ◌-ℤ◌, to_i16, ltb_ℤ}
use sequoia.Proofs.Pool.Bound.{wrap-inc, wrap-dec, full-counted}
use sequoia.Proofs.Pool.{
  Prover, Pool, Step, Runs, started, generated, uploaded, here, then_, inc, dec, full, wrap_i16,
  new_pool, new_prover,
}

-- The cycle is one goroutine: it looks for room, then reads the count, then writes it.
pub data Cycling : Type 0 where
  looking : Cycling
  admitted : Cycling
  incrementing : ℤ → Cycling

-- The proofs of a cycle that are being generated, the uploads whose proofs were, and the counts that
-- goroutines have read in `Dec` and not yet written.
pub record Racing : Type 0 where
  pub prover : Prover
  pub cycle : Cycling
  pub running : ℕ
  pub uploads : ℕ
  pub decrementing : List ℤ

abbrev store : Prover → ℤ → Prover
store p z = record p { current_threads = wrap_i16 z }

pub data RacyStep : Racing → Racing → Type 0 where
  finds_room :
      {p : Prover} {r u : ℕ} {ds : List ℤ}
      → full p ≡ false
      → RacyStep
          (record { prover = p; cycle = looking; running = r; uploads = u; decrementing = ds })
          (record { prover = p; cycle = admitted; running = r; uploads = u; decrementing = ds })
  inc_reads :
      {p : Prover} {r u : ℕ} {ds : List ℤ}
      → RacyStep
          (record { prover = p; cycle = admitted; running = r; uploads = u; decrementing = ds })
          (record {
            prover = p;
            cycle = incrementing p.current_threads;
            running = r;
            uploads = u;
            decrementing = ds;
          })
  inc_writes :
      {p : Prover} {z : ℤ} {r u : ℕ} {ds : List ℤ}
      → RacyStep
          (record {
            prover = p;
            cycle = incrementing z;
            running = r;
            uploads = u;
            decrementing = ds;
          })
          (record {
            prover = store p (z +ℤ pos 1);
            cycle = looking;
            running = suc r;
            uploads = u;
            decrementing = ds;
          })
  dec_reads :
      {p : Prover} {c : Cycling} {r u : ℕ} {ds : List ℤ}
      → RacyStep
          (record { prover = p; cycle = c; running = suc r; uploads = u; decrementing = ds })
          (record {
            prover = p;
            cycle = c;
            running = r;
            uploads = u;
            decrementing = p.current_threads ∷ ds;
          })
  upload_reads :
      {p : Prover} {c : Cycling} {r u : ℕ} {ds : List ℤ}
      → RacyStep
          (record { prover = p; cycle = c; running = r; uploads = u; decrementing = ds })
          (record {
            prover = p;
            cycle = c;
            running = r;
            uploads = suc u;
            decrementing = p.current_threads ∷ ds;
          })
  dec_writes :
      {p : Prover} {c : Cycling} {z : ℤ} {r u : ℕ} {ds : List ℤ}
      → RacyStep
          (record { prover = p; cycle = c; running = r; uploads = u; decrementing = z ∷ ds })
          (record {
            prover = store p (z -ℤ pos 1);
            cycle = c;
            running = r;
            uploads = u;
            decrementing = ds;
          })

pub data RacyRuns : Racing → Racing → Type 0 where
  start : {s : Racing} → RacyRuns s s
  next : {s t u : Racing} → RacyRuns s t → RacyStep t u → RacyRuns s u

-- A pool in which nobody is within `Inc` or `Dec`.
abbrev pub at_rest : Pool → Racing
at_rest s = record {
  prover = s.prover;
  cycle = looking;
  running = s.running;
  uploads = s.uploads;
  decrementing = [];
}

one_step : {s t : Pool} (r : Racing) → Step s t → RacyRuns r (at_rest s) → RacyRuns r (at_rest t)
unfolding inc dec
one_step r (started room) before = next (next (next before (finds_room room)) inc_reads) inc_writes
one_step r generated before = next (next before dec_reads) dec_writes
one_step r uploaded before = next (next before upload_reads) dec_writes

-- The runs of the pool are runs of the goroutines.
pub Runs-RacyRuns : {s t : Pool} → Runs s t → RacyRuns (at_rest s) (at_rest t)
Runs-RacyRuns here = start
Runs-RacyRuns (then_ before last) = one_step _ last (Runs-RacyRuns before)

abbrev pub resting : Prover → ℕ → Racing
resting p running = record {
  prover = p;
  cycle = looking;
  running = running;
  uploads = 0;
  decrementing = [];
}

-- A prover with a number of threads, that has counted so many.
record Counted (t n : ℕ) (p : Prover) : Type 0 where
  threads : p.threads ≡ pos t
  current : p.current_threads ≡ to_i16 n

-- With fewer running proofs than the threads and the lost updates together, the prover sees room.
sees_room :
    (t k r : ℕ) (p : Prover)
    → t + k ≤ 32767
    → suc r ≤ t + k
    → Counted t (r + 65535 * k) p
    → full p ≡ false
sees_room t k r p small more c =
    let less : not (ltb_ℤ (to_i16 (r + 65535 * k)) (pos t)) ≡ false = ground arith in
    full-counted p t (r + 65535 * k) c.threads c.current ∙ less

-- A `Dec` reads the count, an `Inc` reads and writes it, and the `Dec` writes: the `Inc` is lost.
lose_one :
    (s : Racing) (p : Prover) (r : ℕ)
    → full p ≡ false
    → RacyRuns s (resting p (suc r))
    → RacyRuns s (resting (store p (p.current_threads -ℤ pos 1)) (suc r))
lose_one s p r room before =
    next (next (next (next (next before dec_reads) (finds_room room)) inc_reads) inc_writes)
      dec_writes

start_one :
    (s : Racing) (p : Prover) (r : ℕ)
    → full p ≡ false
    → RacyRuns s (resting p r)
    → RacyRuns s (resting (store p (p.current_threads +ℤ pos 1)) (suc r))
start_one s p r room before = next (next (next before (finds_room room)) inc_reads) inc_writes

lost_so_many :
    (t k : ℕ)
    → 2 ≤ t
    → t + k ≤ 32767
    → (p : Prover) × Counted t (1 + 65535 * k) p
      × RacyRuns (at_rest (new_pool (pos t))) (resting p 1)
unfolding new_prover
lost_so_many t zero two small =
    let p = new_prover (pos t) in
    let c : Counted t (0 + 65535 * 0) p = record { threads = refl; current = refl } in
    (
      store p (pos 1),
      record { threads = refl; current = refl },
      start_one _ p 0 (sees_room t 0 0 p (omega arith) (omega arith) c) start,
    )
lost_so_many t (suc k) two small =
    let (p, c, before) = lost_so_many t k two (omega arith) in
    (
      store p (p.current_threads -ℤ pos 1),
      record {
        threads = c.threads;
        current =
            wrap-dec p.current_threads (1 + 65535 * k) (1 + 65535 * suc k) c.current (omega arith);
      },
      lose_one _ p 0 (sees_room t k 1 p (omega arith) (omega arith) c) before,
    )

started_up_to :
    (t k r : ℕ)
    → 2 ≤ t
    → t + k ≤ 32767
    → suc r ≤ t + k
    → (p : Prover) × Counted t (suc r + 65535 * k) p
      × RacyRuns (at_rest (new_pool (pos t))) (resting p (suc r))
started_up_to t k zero two small more = lost_so_many t k two small
started_up_to t k (suc r) two small more =
    let (p, c, before) = started_up_to t k r two small (omega arith) in
    (
      store p (p.current_threads +ℤ pos 1),
      record {
        threads = c.threads;
        current =
            wrap-inc p.current_threads (suc r + 65535 * k) (suc (suc r) + 65535 * k) c.current
              (omega arith);
      },
      start_one _ p (suc r) (sees_room t k (suc r) p small more c) before,
    )

-- Where updates overlap, each `Inc` that is lost lets one more proof run than there are threads, without
-- any upload: with two threads or more, for any number of lost updates that fits an int16 with them, the
-- prover can come to have as many proofs of a cycle running as both together.
pub races_overrun :
    (t k : ℕ)
    → 2 ≤ t
    → t + suc k ≤ 32767
    → (p : Prover) × RacyRuns (at_rest (new_pool (pos t))) (resting p (t + suc k))
races_overrun t k two small =
    let (p, c, run) = started_up_to t (suc k) (t + k) two small (omega arith) in
    (p, subst (λ (n : ℕ). RacyRuns (at_rest (new_pool (pos t))) (resting p n)) (omega arith) run)
