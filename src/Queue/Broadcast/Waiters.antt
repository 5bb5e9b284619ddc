-- ===== src/Queue/Broadcast/Waiters.antt =====
-- The WaitGroups of the messages over any run of `Add` and `BroadcastPending` (queue/queue.go).
use sequoia.Prelude.{
  ℕ, ◌<◌, ◌==◌, if◌then◌else◌, Bool, true, false, ◌||◌, List, [], ◌∷◌, ◌++◌, append-nil, not, ◌≡◌,
  refl, sym, ◌∙◌, ap, Option, none, some, arith, length, contains, contains-append, Distinct,
  Distinct-concat, Distinct-left, Distinct-right, Distinct-apart, Bool-cases, take-append-drop, inl,
  inr,
}
use sequoia.Prelude.Int.{ℤ, pos, ltb_ℤ}
use sequoia.Prelude.Bytes.{Bytes}
use sequoia.Config.Types.{RateLimitConfig}
use sequoia.Queue.Types.{Msg, TxResponse, Message, Queue}
use sequoia.Queue.Add.{add, new_queue, is_duplicate}
use sequoia.Queue.Broadcast
use sequoia.Queue.Broadcast.{
  TxData, Answer, Mempool, Chain, Ending, Outcome, total, unreachable, completed, gave_up, emptied,
  returned, panicked, settle, deliver, finish, post_batch, broadcast_by, broadcast_pending,
  attempts, tx_data, batch_of, rest_of, cutoff_of,
}
use sequoia.Queue.Broadcast.Settle.{settled, settled_other, settled-wg, settle_lem}

-- What holds of a queue when the messages of `lost` were thrown away with somebody waiting. A
-- message waits if it is queued or lost, and no other message of the store does.
pub record IsSound (lost : List ℕ) (q : Queue) : Type 0 where
  pub distinct : Distinct q.messages
  pub fresh : (i : ℕ) → contains i q.messages ≡ true → i < q.next
  pub lost_fresh : (i : ℕ) → contains i lost ≡ true → i < q.next
  pub apart : (i : ℕ) → contains i q.messages ≡ true → contains i lost ≡ false
  pub waiting :
      (i : ℕ)
      → i < q.next
      → (q.store i).wg ≡ (if contains i q.messages || contains i lost then 1 else 0)

pub new_queue-IsSound :
    (now interval : ℕ) (max_size_bytes : ℤ) (domain : Bytes) (rl : RateLimitConfig)
    → IsSound [] (new_queue now interval max_size_bytes domain rl)
unfolding new_queue
new_queue-IsSound now interval max_size_bytes domain rl = record {
  distinct = tt;
  fresh = λ i h. cc;
  lost_fresh = λ i h. cc;
  apart = λ i h. cc;
  waiting = λ i h. elim h [ ];
}

contains_concat : (i a : ℕ) (xs : List ℕ) → contains i (xs ++ a ∷ []) ≡ (contains i xs || (i == a))
contains_concat i a xs = ground (arith, contains-append i xs (a ∷ []))

not_queued : (lost : List ℕ) (q : Queue) → IsSound lost q → contains q.next q.messages ≡ false
not_queued lost q v = elim (Bool-cases (contains q.next q.messages)) [
  | inl h ↦ absurd (omega (arith, v.fresh q.next h))
  | inr h ↦ h
]

not_lost : (lost : List ℕ) (q : Queue) → IsSound lost q → contains q.next lost ≡ false
not_lost lost q v = elim (Bool-cases (contains q.next lost)) [
  | inl h ↦ absurd (omega (arith, v.lost_fresh q.next h))
  | inr h ↦ h
]

pub add-IsSound :
    (lost : List ℕ) (msg : Msg) (q : Queue) → IsSound lost q → IsSound lost (add msg q).0
unfolding add
add-IsSound lost msg q v = elim (Bool-cases (is_duplicate msg q.store q.messages)) [
  | inl dup ↦ rw (dup) (record {
    distinct = v.distinct;
    fresh = λ i h. omega (arith, v.fresh i h);
    lost_fresh = λ i h. omega (arith, v.lost_fresh i h);
    apart = v.apart;
    waiting = λ i h. ground (arith, v.waiting i, not_queued lost q v, not_lost lost q v);
  })
  | inr new ↦ rw (new) (record {
    distinct = Distinct-concat q.messages q.next v.distinct (not_queued lost q v);
    fresh = λ i h. ground (arith, v.fresh i, contains_concat i q.next q.messages);
    lost_fresh = λ i h. omega (arith, v.lost_fresh i h);
    apart =
        λ i h. ground (arith, v.apart i, not_lost lost q v, contains_concat i q.next q.messages);
    waiting =
        λ i h. ground (arith, v.waiting i, not_lost lost q v, contains_concat i q.next q.messages);
  })
]

-- The messages split into the batch and the rest.
batch_rest : (q : Queue) → batch_of q ++ rest_of q ≡ q.messages
batch_rest q = take-append-drop (cutoff_of q) q.messages

pub contains_batch :
    (q : Queue) (i : ℕ)
    → contains i q.messages ≡ (contains i (batch_of q) || contains i (rest_of q))
contains_batch q i =
    sym (ap (contains i) (batch_rest q)) ∙ contains-append i (batch_of q) (rest_of q)

-- A delivered batch: nobody waits for it any more, and each of its messages has the results and
-- its position; no other message changes, and the rest stays queued.
pub record IsDelivered (q q' : Queue) (err : Option Bytes) (res : Option TxResponse) : Type 0 where
  pub messages_are : q'.messages ≡ rest_of q
  pub next_is : q'.next ≡ q.next
  pub store_is : (i : ℕ) → q'.store i ≡ settled err res 0 (batch_of q) i (q.store i)

batch_waits :
    (lost : List ℕ) (q : Queue)
    → IsSound lost q
    → (i : ℕ) → contains i (batch_of q) ≡ true
    → (q.store i).wg ≡ 1
batch_waits lost q v i h =
    let m : contains i q.messages ≡ true = ground (arith, contains_batch q i) in
    v.waiting i (v.fresh i m) ∙ rw m

pub deliver_lem :
    (lost : List ℕ) (q : Queue) (err : Option Bytes) (res : Option TxResponse)
    → IsSound lost q
    → (q' : Queue) × (deliver (record q { messages = rest_of q }) (batch_of q) err res
        ≡ returned q' (length (batch_of q)) err)
      × IsDelivered q q' err res
unfolding deliver
deliver_lem lost q err res v =
    let d : Distinct (batch_of q) =
      Distinct-left (batch_of q) (rest_of q) (rw (batch_rest q) v.distinct) in
    let (store', e, h) = settle_lem err res 0 (batch_of q) q.store d (batch_waits lost q v) in
    (
      record q { messages = rest_of q; store = store' },
      rw (e, deliver),
      record { messages_are = refl; next_is = refl; store_is = h },
    )

-- What a queue is left with, once the batch is no more waited for.
module _ (lost : List ℕ) (q q' : Queue) (err : Option Bytes) (res : Option TxResponse)
    (v : IsSound lost q) (d : IsDelivered q q' err res) where
  parts_Distinct : Distinct (batch_of q ++ rest_of q)
  parts_Distinct = rw (batch_rest q) v.distinct

  contains_left : (i : ℕ) → contains i q'.messages ≡ contains i (rest_of q)
  contains_left i = ap (contains i) d.messages_are

  left_was_queued : (i : ℕ) → contains i q'.messages ≡ true → contains i q.messages ≡ true
  left_was_queued i h = ground (arith, contains_left i, contains_batch q i)

  wg_afterwards :
      (i : ℕ)
      → i < q.next
      → (q'.store i).wg ≡ (if contains i q'.messages || contains i lost then 1 else 0)
  wg_afterwards i h = elim (Bool-cases (contains i (batch_of q))) [
    | inl taken ↦
        ap (λ (m : Message). m.wg) (d.store_is i)
        ∙ settled-wg err res 0 (batch_of q) i (q.store i) taken
        ∙ ground (
          arith,
          contains_left i,
          contains_batch q i,
          Distinct-apart (batch_of q) (rest_of q) i parts_Distinct taken,
          v.apart i,
        )
    | inr left ↦
        ap (λ (m : Message). m.wg) (d.store_is i)
        ∙ ap (λ (m : Message). m.wg) (settled_other err res 0 (batch_of q) i (q.store i) left)
        ∙ ground (arith, contains_left i, contains_batch q i, v.waiting i)
  ]

  pub IsDelivered-IsSound : IsSound lost q'
  IsDelivered-IsSound = record {
    distinct = rw d.messages_are (Distinct-right (batch_of q) (rest_of q) parts_Distinct);
    fresh = λ i h. rw d.next_is (v.fresh i (left_was_queued i h));
    lost_fresh = λ i h. rw d.next_is (v.lost_fresh i h);
    apart = λ i h. v.apart i (left_was_queued i h);
    waiting = λ i h. wg_afterwards i (rw d.next_is at h);
  }

-- A full mempool: the batch and the rest are dropped, and all of them stay waited for.
emptied-IsSound :
    (lost : List ℕ) (q : Queue)
    → IsSound lost q
    → IsSound (lost ++ q.messages) (record q { messages = [] })
emptied-IsSound lost q v = record {
  distinct = tt;
  fresh = λ i h. cc;
  lost_fresh = λ i h. ground (arith, contains-append i lost q.messages, v.fresh i, v.lost_fresh i);
  apart = λ i h. cc;
  waiting = λ i h. ground (arith, contains-append i lost q.messages, v.waiting i h);
}

-- How the attempts on the head of the queue end.
abbrev pub ending_of : Chain → Queue → Ending
ending_of chain q = attempts chain.broadcast 10 0 (tx_data q) none

-- The mempool lets the batch be posted.
abbrev pub is_open : Mempool → Bool
is_open (unreachable e) = false
is_open (total n) = not (ltb_ℤ (pos 2000) n)

abbrev pub thrown : Bool → Ending → List ℕ → List ℕ
thrown true emptied ms = ms
thrown true (completed r) ms = []
thrown true (gave_up r) ms = []
thrown false e ms = []

-- The messages that a broadcast throws away unsettled.
abbrev pub lost_by : Chain → Queue → List ℕ
lost_by chain q = thrown (is_open chain.mempool) (ending_of chain q) q.messages

abbrev pub Ends : List ℕ → Outcome → Type 0
Ends lost (returned q n err) = IsSound lost q
Ends lost panicked = ⊥

finish-Ends :
    (lost : List ℕ) (q : Queue) (e : Ending)
    → IsSound lost q
    → Ends
        (lost ++ thrown true e q.messages)
        (finish (record q { messages = rest_of q }) (batch_of q) e)
unfolding finish
finish-Ends lost q (completed r) v =
    let (q', e, d) = deliver_lem lost q none r v in
    rw (e, append-nil) (IsDelivered-IsSound lost q q' none r v d)
finish-Ends lost q (gave_up r) v =
    let (q', e, d) = deliver_lem lost q (some Broadcast.loops_error) r v in
    rw (e, append-nil) (IsDelivered-IsSound lost q q' (some Broadcast.loops_error) r v d)
finish-Ends lost q emptied v = emptied-IsSound lost q v

broadcast_by-Ends :
    (lost : List ℕ) (m : Mempool) (send : ℕ → TxData → Answer) (q : Queue)
    → IsSound lost q
    → Ends
        (lost ++ thrown (is_open m) (attempts send 10 0 (tx_data q) none) q.messages)
        (broadcast_by m send q)
unfolding broadcast_by post_batch
broadcast_by-Ends lost (unreachable e) send q v = rw append-nil v
broadcast_by-Ends lost (total n) send q v = elim (Bool-cases (ltb_ℤ (pos 2000) n)) [
  | inl big ↦ rw (big, append-nil) v
  | inr small ↦ rw small (finish-Ends lost q (attempts send 10 0 (tx_data q) none) v)
]

-- A broadcast of a sound queue never panics, and leaves a sound queue.
pub broadcast_pending-Ends :
    (lost : List ℕ) (chain : Chain) (q : Queue)
    → IsSound lost q
    → Ends (lost ++ lost_by chain q) (broadcast_pending chain q)
unfolding broadcast_pending
broadcast_pending-Ends lost chain q v = broadcast_by-Ends lost chain.mempool chain.broadcast q v
