-- ===== src/Queue/Broadcast/Retry.antt =====
-- How the attempts of a broadcast end (queue/queue.go).
use sequoia.Prelude.{
  ℕ, zero, suc, ◌+◌, ◌<◌, ◌≤◌, ◌≡◌, ◌≢◌, refl, ◌∙◌, Option, some, true, false, arith,
}
use sequoia.Prelude.Bytes.{Bytes, codes, contains_text}
use sequoia.Queue.Types.{TxResponse}
use sequoia.Queue.Sequence.{extract_expected_sequence}
use sequoia.Queue.Broadcast.{
  TxData, Answer, Verdict, again, mempool_full, complete, mismatch_text, resequence, after_mismatch,
  judge_error, judge_by, judge, attempts, Ending, completed, gave_up, emptied,
}

-- From attempt `i` with the data `d`, every answer asks for another attempt, up to attempt `j`, which
-- has the data `e`.
pub data Retries (send : ℕ → TxData → Answer) : ℕ → TxData → ℕ → TxData → Type 0 where
  no_more : {i : ℕ} {d : TxData} → Retries send i d i d
  one_more :
      {i j : ℕ} {d d' e : TxData}
      → judge (send i d) d ≡ again d'
      → Retries send (suc i) d' j e
      → Retries send i d j e

abbrev pub ending_for : Verdict → Option TxResponse → Ending
ending_for (again d) r = gave_up r
ending_for mempool_full r = emptied
ending_for complete r = completed r

attempt_again :
    (send : ℕ → TxData → Answer) (left i : ℕ) (d d' : TxData) (last : Option TxResponse)
    → judge (send i d) d ≡ again d'
    → attempts send (suc left) i d last ≡ attempts send left (suc i) d' (send i d).res
unfolding attempts
attempt_again send left i d d' last e = rw (attempts, e) refl

attempt_final :
    (send : ℕ → TxData → Answer) (left i : ℕ) (d : TxData) (last : Option TxResponse) (v : Verdict)
    → judge (send i d) d ≡ v
    → ((d' : TxData) → v ≢ again d')
    → attempts send (suc left) i d last ≡ ending_for v (send i d).res
unfolding attempts
attempt_final send left i d last (again d') e n = absurd (n d' refl)
attempt_final send left i d last mempool_full e n = rw (attempts, e) refl
attempt_final send left i d last complete e n = rw (attempts, e) refl

Retries-le : {send : ℕ → TxData → Answer} {i j : ℕ} {d e : TxData} → Retries send i d j e → i ≤ j
Retries-le no_more = omega arith
Retries-le (one_more a rs) = omega (arith, Retries-le rs)

-- While attempts are left, the loop ends with the first answer that does not ask for another attempt:
-- it empties the queue exactly on a full mempool, and otherwise completes with the response of that
-- answer; the data of each attempt is what the answer before it made of it.
pub attempts_first_final :
    (send : ℕ → TxData → Answer) (left i j : ℕ) (d e : TxData) (last : Option TxResponse)
    → Retries send i d j e
    → j < i + left
    → ((d' : TxData) → judge (send j e) e ≢ again d')
    → attempts send left i d last ≡ ending_for (judge (send j e) e) (send j e).res
attempts_first_final send zero i j d e last no_more more final = absurd (omega arith)
attempts_first_final send (suc left) i j d e last no_more more final =
    attempt_final send left i d last (judge (send i d) d) refl final
attempts_first_final send zero i j d e last (one_more a rs) more final =
    absurd (omega (arith, Retries-le rs))
attempts_first_final send (suc left) i j d e last (one_more {d' = d'} a rs) more final =
    attempt_again send left i d d' last a
    ∙ attempts_first_final send left (suc i) j d' e (send i d).res rs (omega arith) final

-- An error that names the sequence number that the chain expects makes the next attempt use that
-- number, whatever number this attempt had, if it is no error of the cache or the mempool.
pub judge_mismatch :
    (d : TxData) (res : Option TxResponse) (text : Bytes) (n : ℕ)
    → contains_text text (codes "tx already exists in cache") ≡ false
    → contains_text text (codes "mempool is full") ≡ false
    → contains_text text mismatch_text ≡ true
    → extract_expected_sequence text ≡ some n
    → judge (record { res = res; err = some text }) d ≡ again (record d { sequence = some n })
unfolding judge judge_by judge_error after_mismatch
judge_mismatch d res text n cache full mismatch named =
    rw (cache, full, mismatch, resequence, named) refl
