-- ===== src/Proofs/Pool.antt =====
-- The count of running proofs (`Inc`, `Dec`, `Full` of proofs/types.go) as the prover's cycle
-- (`Start` of proofs/proofs.go) and the upload handlers (api/file_handler.go) move it.
pub mod Bound
pub mod Race
use sequoia.Prelude.{ℕ, zero, suc, ◌+◌, ◌*◌, Bool, true, false, not, ◌≡◌}
use sequoia.Prelude.Int.{ℤ, pos, pos_part, neg_part, ◌+ℤ◌, ◌-ℤ◌, ltb_ℤ, to_i16}

-- The fields of the prover that its operations on the count read.
pub record Prover : Type 0 where
  pub threads : ℤ
  pub current_threads : ℤ

-- The int16 that an integer wraps around to: -1 and 65535 are the same there.
abbrev pub wrap_i16 : ℤ → ℤ
wrap_i16 z = to_i16 (pos_part z + 65535 * neg_part z)

-- `Inc` and `Dec` where no other update of the count comes between the read and the write; Race has
-- the two apart.
unfoldable pub inc : Prover → Prover
inc p = record { threads = p.threads; current_threads = wrap_i16 (p.current_threads +ℤ pos 1) }

unfoldable pub dec : Prover → Prover
dec p = record { threads = p.threads; current_threads = wrap_i16 (p.current_threads -ℤ pos 1) }

unfoldable pub full : Prover → Bool
full p = not (ltb_ℤ p.current_threads p.threads)

-- A new prover, by the number of threads (`NewProver`).
unfoldable pub new_prover : ℤ → Prover
new_prover threads = record { threads = threads; current_threads = pos 0 }

-- The prover, the proofs of a cycle that are being generated, and how many proofs of the upload
-- handlers have been generated.
pub record Pool : Type 0 where
  pub prover : Prover
  pub running : ℕ
  pub uploads : ℕ

-- Steps in which no two updates of the count overlap. `started`: a cycle finds room and starts a proof. `generated`: such a proof was generated or
-- failed. `uploaded`: a proof that a handler asked of `PostProof` was.
pub data Step : Pool → Pool → Type 0 where
  started :
      {p : Prover} {r u : ℕ}
      → full p ≡ false
      → Step
          (record { prover = p; running = r; uploads = u })
          (record { prover = inc p; running = suc r; uploads = u })
  generated :
      {p : Prover} {r u : ℕ}
      → Step
          (record { prover = p; running = suc r; uploads = u })
          (record { prover = dec p; running = r; uploads = u })
  uploaded :
      {p : Prover} {r u : ℕ}
      → Step
          (record { prover = p; running = r; uploads = u })
          (record { prover = dec p; running = r; uploads = suc u })

-- Zero or more steps.
pub data Runs : Pool → Pool → Type 0 where
  here : {s : Pool} → Runs s s
  then_ : {s t u : Pool} → Runs s t → Step t u → Runs s u

abbrev pub new_pool : ℤ → Pool
new_pool threads = record { prover = new_prover threads; running = 0; uploads = 0 }
