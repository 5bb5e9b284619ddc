-- ===== src/Queue/Listen.antt =====
-- One round of `Listen` (queue/queue.go), after its pause. The clock and the rate limiter are
-- parameters: the time at the test, the limiter's answer, and the time after the broadcast, all in
-- nanoseconds.
use sequoia.Prelude.{
  ℕ, ◌*◌, ◌==◌, if◌then◌else◌, Bool, not, ◌&&◌, List, ◌≡◌, arith, length, Option, none, some,
}
use sequoia.Prelude.Int.{pos, ◌+ℤ◌, ltb_ℤ, to_i64}
use sequoia.Queue.Types.{Queue}
use sequoia.Queue.Broadcast.{Chain, Outcome, returned, panicked, broadcast_pending}

-- `q.processed.Add(time.Second * time.Duration(q.interval)).Before(time.Now())`
abbrev pub is_due : Queue → ℕ → Bool
is_due q now = ltb_ℤ (pos q.processed +ℤ to_i64 (q.interval * 1000000000)) (pos now)

pub record Round : Type 0 where
  pub now : ℕ
  pub allowed : Bool
  pub chain : Chain
  pub later : ℕ

stamp : ℕ → Outcome → Outcome
stamp later (returned q n err) = returned (record q { processed = later }) n err
stamp later panicked = panicked

-- `none` is a round that goes on without a broadcast.
unfoldable pub listen_round : Round → Queue → Option Outcome
unfolding stamp
listen_round r q =
    if not (is_due q r.now)
    then none
    else if length q.messages == 0
    then none
    else if not r.allowed
    then none
    else some (stamp r.later (broadcast_pending r.chain q))

-- A round broadcasts exactly if the interval since the last broadcast has passed, the queue holds a
-- message and the limiter has a token; then it is the broadcast of that queue, with the time of its
-- end kept for the next round.
pub listen_round_broadcasts :
    (r : Round) (q q' : Queue) (n : ℕ) (err : Option (List ℕ))
    → broadcast_pending r.chain q ≡ returned q' n err
    → listen_round r q ≡ (
        if is_due q r.now && (not (length q.messages == 0) && r.allowed)
        then some (returned (record q' { processed = r.later }) n err)
        else none)
unfolding listen_round
listen_round_broadcasts r q q' n err e = rw e (ground arith)
