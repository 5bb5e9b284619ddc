-- ===== src/Queue/Add.antt =====
-- `NewQueue` and `Add` (queue/queue.go). Adding a proof that the queue already holds makes a
-- message that is not queued, whose index is -1 and on which nobody has to wait.
use sequoia.Prelude.{
  ℕ, suc, if◌then◌else◌, Bool, false, ◌&&◌, ◌||◌, List, [], ◌∷◌, ◌++◌, none, length,
}
use sequoia.Prelude.Int.{ℤ, pos, negsuc, eqb_ℤ}
use sequoia.Prelude.Bytes.{Bytes, bytes_equal}
use sequoia.Config.Types.{RateLimitConfig, default_max_size_bytes, default_rate_limit_config}
use sequoia.Queue.Types.{
  PostProof, Msg, nil_msg, post_proof, other_msg, Message, Queue, update, blank_message,
}

-- A setting of 0 takes the default.
unfoldable pub new_queue : (now interval : ℕ) → ℤ → Bytes → RateLimitConfig → Queue
new_queue now interval max_size_bytes domain rl = record {
  store = λ _. blank_message;
  next = 0;
  messages = [];
  processed = now;
  running = false;
  interval = interval;
  max_size_bytes = if eqb_ℤ max_size_bytes (pos 0) then default_max_size_bytes else max_size_bytes;
  domain = domain;
  limiter = record {
    per_token_ms =
        if eqb_ℤ rl.per_token_ms (pos 0)
        then default_rate_limit_config.per_token_ms
        else rl.per_token_ms;
    burst = if eqb_ℤ rl.burst (pos 0) then default_rate_limit_config.burst else rl.burst;
  };
}

-- Two proofs of one contract.
unfoldable pub same_contract : PostProof → PostProof → Bool
same_contract a b =
    bytes_equal a.merkle b.merkle && (eqb_ℤ a.start b.start && bytes_equal a.owner b.owner)

-- The test on one queued message; the loop skips what is no proof.
unfoldable pub clashes : PostProof → Msg → Bool
unfolding same_contract
clashes p nil_msg = false
clashes p (other_msg kind) = false
clashes p (post_proof q) = same_contract q p

unfoldable pub any_clash : PostProof → (ℕ → Message) → List ℕ → Bool
any_clash p store [] = false
any_clash p store (i ∷ is) = clashes p (store i).msg || any_clash p store is

unfoldable pub is_duplicate : Msg → (ℕ → Message) → List ℕ → Bool
unfolding any_clash
is_duplicate (post_proof p) store is = any_clash p store is
is_duplicate nil_msg store is = false
is_duplicate (other_msg kind) store is = false

unfoldable pub skipped : Msg → Message
skipped msg = record { msg = msg; wg = 0; err = none; res = none; msg_index = negsuc 0 }

unfoldable pub queued : Msg → Message
queued msg = record { msg = msg; wg = 1; err = none; res = none; msg_index = pos 0 }

-- The new queue and the message that the caller gets.
unfoldable pub add : Msg → Queue → Queue × ℕ
unfolding is_duplicate skipped queued
add msg q = (
  if is_duplicate msg q.store q.messages
      then record q { store = update q.store q.next (skipped msg); next = suc q.next }
      else record q {
        store = update q.store q.next (queued msg);
        next = suc q.next;
        messages = q.messages ++ q.next ∷ [];
      },
  q.next,
)

-- `Stop` and `Count`.
unfoldable pub stop : Queue → Queue
stop q = record q { running = false }

unfoldable pub count : Queue → ℕ
count q = length q.messages
