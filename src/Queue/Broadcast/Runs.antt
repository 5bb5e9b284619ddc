-- ===== src/Queue/Broadcast/Runs.antt =====
-- Runs of the queue: any sequence of `Add` and `BroadcastPending` (queue/queue.go).
use sequoia.Prelude.{
  ℕ, ◌<◌, true, false, List, [], ◌∷◌, ◌++◌, ◌≡◌, ◌≢◌, refl, ◌∙◌, Option, none, some, arith, length,
  contains, contains-append, append_assoc, append-nil, Bool-cases, inl, inr,
}
use sequoia.Prelude.Int.{ℤ, pos, ltb_ℤ}
use sequoia.Prelude.Bytes.{Bytes}
use sequoia.Config.Types.{RateLimitConfig}
use sequoia.Queue.Types.{Msg, TxResponse, Queue}
use sequoia.Queue.Add.{add, new_queue}
use sequoia.Queue.Broadcast.{
  Mempool, Chain, Ending, Outcome, total, unreachable, completed, gave_up, emptied, returned,
  panicked, finish, broadcast_by, broadcast_pending, batch_of, rest_of, loops_error,
}
use sequoia.Queue.Broadcast.Waiters.{
  IsSound, IsDelivered, Ends, lost_by, ending_of, is_open, deliver_lem, new_queue-IsSound,
  add-IsSound, broadcast_pending-Ends,
}

pub data Event : Type 0 where
  adds : Msg → Event
  broadcasts : Chain → Event

-- The queue that a broadcast leaves, unless it panics.
abbrev pub after : Outcome → Option Queue
after (returned q n err) = some q
after panicked = none

unfoldable pub step : Event → Queue → Option Queue
step (adds msg) q = some (add msg q).0
step (broadcasts chain) q = after (broadcast_pending chain q)

unfoldable pub run : List Event → Queue → Option Queue
run [] q = some q
run (e ∷ es) q = elim (step e q) [ none ↦ none | some q' ↦ run es q' ]

-- The messages that the run throws away with somebody waiting for them.
pub lost_of : Event → Queue → List ℕ
lost_of (adds msg) q = []
lost_of (broadcasts chain) q = lost_by chain q

unfoldable pub lost_in : List Event → Queue → List ℕ
unfolding lost_of
lost_in [] q = []
lost_in (e ∷ es) q = elim (step e q) [ none ↦ [] | some q' ↦ lost_of e q ++ lost_in es q' ]

abbrev pub Steps : List ℕ → Option Queue → Type 0
Steps lost r = (q : Queue) × (r ≡ some q) × IsSound lost q

Ends-Steps : (lost : List ℕ) (o : Outcome) → Ends lost o → Steps lost (after o)
Ends-Steps lost (returned q n err) v = (q, refl, v)
Ends-Steps lost panicked v = absurd v

pub step-Steps :
    (lost : List ℕ) (e : Event) (q : Queue)
    → IsSound lost q
    → Steps (lost ++ lost_of e q) (step e q)
unfolding step lost_of
step-Steps lost (adds msg) q v = ((add msg q).0, refl, rw append-nil (add-IsSound lost msg q v))
step-Steps lost (broadcasts chain) q v =
    Ends-Steps _ (broadcast_pending chain q) (broadcast_pending-Ends lost chain q v)

-- A run never panics, and keeps track of who waits.
pub run-Steps :
    (lost : List ℕ) (es : List Event) (q : Queue)
    → IsSound lost q
    → Steps (lost ++ lost_in es q) (run es q)
unfolding run lost_in
run-Steps lost [] q v = (q, refl, rw append-nil v)
run-Steps lost (e ∷ es) q v =
    let (q', s, v') = step-Steps lost e q v in
    let (q'', r, w) = run-Steps (lost ++ lost_of e q) es q' v' in
    (q'', rw (s, run) r, rw (s, lost_in) (rw (← append_assoc lost (lost_of e q) (lost_in es q')) w))

-- Whatever is added and broadcast, no WaitGroup is released twice, so no run panics, and at its
-- end a message of the store has somebody waiting exactly if it is still queued or was thrown away
-- by a broadcast that met a full mempool; the queue holds no message twice.
pub run-IsSound :
    (now interval : ℕ) (max_size_bytes : ℤ) (domain : Bytes) (rl : RateLimitConfig)
    (es : List Event)
    → let q = new_queue now interval max_size_bytes domain rl in
      (q' : Queue) × (run es q ≡ some q') × IsSound (lost_in es q) q'
run-IsSound now interval max_size_bytes domain rl es =
    run-Steps [] es (new_queue now interval max_size_bytes domain rl)
      (new_queue-IsSound now interval max_size_bytes domain rl)

thrown_all :
    (chain : Chain) (q : Queue)
    → is_open chain.mempool ≡ true
    → ending_of chain q ≡ emptied
    → lost_by chain q ≡ q.messages
thrown_all chain q o e = rw (o, e)

lost-contains :
    (lost : List ℕ) (q p : Queue) (chain : Chain) (es : List Event) (i : ℕ)
    → step (broadcasts chain) q ≡ some p
    → lost_by chain q ≡ q.messages
    → contains i q.messages ≡ true
    → contains i (lost ++ lost_in (broadcasts chain ∷ es) q) ≡ true
unfolding lost_in
lost-contains lost q p chain es i s t h =
    rw (s, lost_in)
      (rw t (
        ground (
          arith,
          contains-append i lost (q.messages ++ lost_in es p),
          contains-append i q.messages (lost_in es p),
        )))

out_of_queue :
    (lost : List ℕ) (q q' : Queue) (chain : Chain) (es : List Event) (i : ℕ)
    → IsSound (lost ++ lost_in (broadcasts chain ∷ es) q) q'
    → contains i (lost ++ lost_in (broadcasts chain ∷ es) q) ≡ true
    → contains i q'.messages ≡ false
out_of_queue lost q q' chain es i w l = elim (Bool-cases (contains i q'.messages)) [
  | inl h ↦ let a = w.apart i h in cc
  | inr h ↦ h
]

-- When a broadcast of a sound queue meets a full mempool, every message that was queued is out of
-- the queue for good, and whoever waits for it waits forever: no later run releases its WaitGroup.
pub emptied_strands :
    (lost : List ℕ) (q : Queue) (chain : Chain) (es : List Event) (i : ℕ)
    → IsSound lost q
    → is_open chain.mempool ≡ true
    → ending_of chain q ≡ emptied
    → contains i q.messages ≡ true
    → (q' : Queue) × (run (broadcasts chain ∷ es) q ≡ some q')
      × ((q'.store i).wg ≡ 1)
      × (contains i q'.messages ≡ false)
emptied_strands lost q chain es i v o e h =
    let (p, s, _) = step-Steps lost (broadcasts chain) q v in
    let (q', r, w) = run-Steps lost (broadcasts chain ∷ es) q v in
    let is_lost = lost-contains lost q p chain es i s (thrown_all chain q o e) h in
    let gone = out_of_queue lost q q' chain es i w is_lost in
    let known : i < q'.next = w.lost_fresh i is_lost in
    (q', r, w.waiting i known ∙ rw (gone, is_lost), gone)

abbrev pub error_of_ending : Ending → Option Bytes
error_of_ending (gave_up r) = some loops_error
error_of_ending _ = none

abbrev pub res_of_ending : Ending → Option TxResponse
res_of_ending (completed r) = r
res_of_ending (gave_up r) = r
res_of_ending emptied = none

-- Unless the mempool is full or too long, a broadcast of a sound queue returns the size of the
-- batch and settles exactly the batch: each of its messages gets the response, the error that says
-- whether ten attempts were not enough, and its position, and is no longer waited for; all others
-- stay as they are, and the rest of the queue stays in order.
pub broadcast_pending_delivers :
    (lost : List ℕ) (q : Queue) (chain : Chain)
    → IsSound lost q
    → is_open chain.mempool ≡ true
    → ending_of chain q ≢ emptied
    → let end = ending_of chain q in
      (q' : Queue) × (broadcast_pending chain q
        ≡ returned q' (length (batch_of q)) (error_of_ending end))
      × IsDelivered q q' (error_of_ending end) (res_of_ending end)
unfolding broadcast_pending
broadcast_pending_delivers lost q chain v o n = by_mempool chain.mempool o
  where
    by_ending :
        (e : Ending)
        → e ≢ emptied
        → (q' : Queue) × (finish (record q { messages = rest_of q }) (batch_of q) e
            ≡ returned q' (length (batch_of q)) (error_of_ending e))
          × IsDelivered q q' (error_of_ending e) (res_of_ending e)
    by_ending (completed r) h = unfold finish in deliver_lem lost q none r v
    by_ending (gave_up r) h = unfold finish in deliver_lem lost q (some loops_error) r v
    by_ending emptied h = absurd (h refl)

    by_mempool :
        (m : Mempool)
        → is_open m ≡ true
        → (q' : Queue) × (broadcast_by m chain.broadcast q
            ≡ returned q' (length (batch_of q)) (error_of_ending (ending_of chain q)))
          × IsDelivered q q'
              (error_of_ending (ending_of chain q))
              (res_of_ending (ending_of chain q))
    by_mempool (unreachable e) h = cc
    by_mempool (total k) h = elim (Bool-cases (ltb_ℤ (pos 2000) k)) [
      | inl long ↦ ground arith
      | inr short ↦ rw (short, broadcast_by) (by_ending (ending_of chain q) n)
    ]
