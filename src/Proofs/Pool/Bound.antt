-- ===== src/Proofs/Pool/Bound.antt =====
-- How many proofs of a cycle run at once (proofs/types.go, proofs/proofs.go).
use sequoia.Prelude.{
  ℕ, zero, suc, ◌+◌, ◌*◌, ◌%◌, not, ◌≤◌, ◌≡◌, refl, arith, true, false, ◌∙◌, ap, sym,
}
use sequoia.Prelude.Int.{ℤ, pos, ◌+ℤ◌, ◌-ℤ◌, to_i16, ltb_ℤ}
use sequoia.Proofs.Pool.{
  Prover, Pool, Step, Runs, started, generated, uploaded, here, then_, inc, dec, full, wrap_i16,
  new_pool, new_prover,
}

pub wrap-inc : (z : ℤ) (n k : ℕ) → z ≡ to_i16 n → k ≡ suc n → wrap_i16 (z +ℤ pos 1) ≡ to_i16 k
wrap-inc z n k e next =
    let shifted : wrap_i16 (to_i16 n +ℤ pos 1) ≡ to_i16 (suc n) = ground arith in
    rw (e, next) shifted

pub wrap-dec :
    (z : ℤ) (n k : ℕ)
    → z ≡ to_i16 n
    → (n + 65535) % 65536 ≡ k % 65536
    → wrap_i16 (z -ℤ pos 1) ≡ to_i16 k
wrap-dec z n k e next =
    let shifted : wrap_i16 (to_i16 n -ℤ pos 1) ≡ to_i16 (n + 65535) = ground arith in
    let same : to_i16 (n + 65535) ≡ to_i16 k = ground arith in rw e (shifted ∙ same)

-- The counter holds the running proofs less the uploads, as an int16.
record Counts (t : ℕ) (s : Pool) : Type 0 where
  threads : s.prover.threads ≡ pos t
  current : s.prover.current_threads ≡ to_i16 (s.running + 65535 * s.uploads)
  bound : s.running ≤ t + s.uploads

room :
    (t r u : ℕ)
    → t ≤ 32767
    → r ≤ t + u
    → ltb_ℤ (to_i16 (r + 65535 * u)) (pos t) ≡ true
    → suc r ≤ t + u
room t r u small b lt = ground arith

pub full-counted :
    (p : Prover) (t n : ℕ)
    → p.threads ≡ pos t
    → p.current_threads ≡ to_i16 n
    → full p ≡ not (ltb_ℤ (to_i16 n) (pos t))
unfolding full
full-counted p t n th cur =
    ap (λ (x : ℤ). not (ltb_ℤ x p.threads)) cur ∙ ap (λ (y : ℤ). not (ltb_ℤ (to_i16 n) y)) th

finds_room :
    (p : Prover) (t n : ℕ)
    → p.threads ≡ pos t
    → p.current_threads ≡ to_i16 n
    → full p ≡ false
    → ltb_ℤ (to_i16 n) (pos t) ≡ true
finds_room p t n th cur open_ =
    let less : not (ltb_ℤ (to_i16 n) (pos t)) ≡ false = sym (full-counted p t n th cur) ∙ open_ in
    ground arith

Step-Counts : {s s' : Pool} → (t : ℕ) → t ≤ 32767 → Counts t s → Step s s' → Counts t s'
unfolding inc dec
Step-Counts t small c (started {p} {r} {u} open_) = record {
  threads = c.threads;
  current = wrap-inc p.current_threads (r + 65535 * u) (suc r + 65535 * u) c.current (omega arith);
  bound = room t r u small c.bound (finds_room p t (r + 65535 * u) c.threads c.current open_);
}
Step-Counts t small c (generated {p} {r} {u}) = record {
  threads = c.threads;
  current = wrap-dec p.current_threads (suc r + 65535 * u) (r + 65535 * u) c.current (omega arith);
  bound = omega arith;
}
Step-Counts t small c (uploaded {p} {r} {u}) = record {
  threads = c.threads;
  current = wrap-dec p.current_threads (r + 65535 * u) (r + 65535 * suc u) c.current (omega arith);
  bound = omega arith;
}

new_pool-Counts : (t : ℕ) → Counts t (new_pool (pos t))
unfolding new_prover
new_pool-Counts t = record { threads = refl; current = refl; bound = omega arith }

Runs-Counts : {s s' : Pool} → (t : ℕ) → t ≤ 32767 → Counts t s → Runs s s' → Counts t s'
Runs-Counts t small c here = c
Runs-Counts t small c (then_ before last) = Step-Counts t small (Runs-Counts t small c before) last

-- However a prover with at most 32767 threads runs, as long as no two updates of its count overlap (each
-- `Inc` and `Dec` reads and writes it without another in between), no more proofs of its cycles are being generated
-- at once than it has threads and proofs generated for uploads; without uploads, no more than its
-- threads. Its counter is the running proofs less those uploads, as an int16.
pub Runs-bounded :
    (t : ℕ) (s : Pool)
    → t ≤ 32767
    → Runs (new_pool (pos t)) s
    → (s.running ≤ t + s.uploads)
      × (s.prover.current_threads ≡ to_i16 (s.running + 65535 * s.uploads))
Runs-bounded t s small run =
    let c = Runs-Counts t small (new_pool-Counts t) run in (c.bound, c.current)

-- A prover with some uploads behind it and fewer running proofs than its threads and those uploads.
start_one :
    (t r u : ℕ) (p : Prover)
    → t + u ≤ 32767
    → suc r ≤ t + u
    → Counts t (record { prover = p; running = r; uploads = u })
    → full p ≡ false
start_one t r u p small more c =
    let less : not (ltb_ℤ (to_i16 (r + 65535 * u)) (pos t)) ≡ false = ground arith in
    full-counted p t (r + 65535 * u) c.threads c.current ∙ less

after_uploads :
    (t u : ℕ)
    → (p : Prover) × Runs (new_pool (pos t)) (record { prover = p; running = 0; uploads = u })
unfolding new_prover
after_uploads t zero = (new_prover (pos t), here)
after_uploads t (suc u) = let (p, run) = after_uploads t u in (dec p, then_ run uploaded)

started_up_to :
    (t u r : ℕ)
    → t + u ≤ 32767
    → r ≤ t + u
    → (p : Prover) × Runs (new_pool (pos t)) (record { prover = p; running = r; uploads = u })
started_up_to t u zero small le = after_uploads t u
started_up_to t u (suc r) small le =
    let (p, run) = started_up_to t u r small (omega arith) in
    let c = Runs-Counts t (omega arith) (new_pool-Counts t) run in
    (inc p, then_ run (started (start_one t r u p small le c)))

-- Each proof generated for an upload lets one more proof of a cycle run than there are threads: for
-- any numbers of threads and uploads that together fit an int16, the prover can come to have as many
-- proofs of a cycle running as both together.
pub uploads_overrun :
    (t u : ℕ)
    → t + u ≤ 32767
    → (p : Prover) × Runs (new_pool (pos t)) (record { prover = p; running = t + u; uploads = u })
uploads_overrun t u small = started_up_to t u (t + u) small (omega arith)
