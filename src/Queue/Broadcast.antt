-- ===== src/Queue/Broadcast.antt =====
-- `BroadcastPending` (queue/queue.go). The chain is a parameter: the state of the mempool, and what
-- `BroadcastTxSync` answers to each attempt. The pauses leave no trace in the state.
pub mod Settle
pub mod Waiters
pub mod Runs
pub mod Different
pub mod Unique
pub mod Retry
pub mod During
use sequoia.Prelude.{
  ℕ, zero, suc, ◌+◌, ◌-◌, ◌%◌, ltb, ◌==◌, if◌then◌else◌, Bool, true, false, not, ◌&&◌, List, [],
  ◌∷◌, ◌++◌, ◌≡◌, Option, none, some, map, arith, length, take, drop,
}
use sequoia.Prelude.Int.{ℤ, pos, ltb_ℤ}
use sequoia.Prelude.Bytes.{Bytes, codes, contains_text}
use sequoia.Queue.Types.{Msg, TxResponse, Message, Queue, update}
use sequoia.Queue.Sequence.{extract_expected_sequence}
use sequoia.Queue.Batch.{select_cutoff}

-- `walletTypes.TransactionData`, with the gas and the fee left to the wallet.
pub record TxData : Type 0 where
  pub msgs : List Msg
  pub memo : Bytes
  pub sequence : Option ℕ

-- The two results of `BroadcastTxSync`.
pub record Answer : Type 0 where
  pub res : Option TxResponse
  pub err : Option Bytes

-- The two results of `UnconfirmedTxs`: the total, or an error.
pub data Mempool : Type 0 where
  total : ℤ → Mempool
  unreachable : Bytes → Mempool

pub record Chain : Type 0 where
  pub mempool : Mempool
  pub broadcast : ℕ → TxData → Answer

-- What the answer to an attempt leads to.
pub data Verdict : Type 0 where
  again : TxData → Verdict
  mempool_full : Verdict
  complete : Verdict

abbrev pub mismatch_text : Bytes
mismatch_text = codes "account sequence mismatch"

-- The sequence number to use after a mismatch: the one that the text names, or the next one.
pub resequence : Bytes → TxData → Option TxData
resequence text data_ =
    let expected = extract_expected_sequence text in
    elim expected [
      | some n ↦ some (record data_ { sequence = some n })
      | none ↦ elim data_.sequence [
        | some n ↦ some (record data_ { sequence = some ((n + 1) % 18446744073709551616) })
        | none ↦ none
      ]
    ]

pub after_mismatch : Bytes → TxData → Option TxData
unfolding resequence
after_mismatch text data_ = if contains_text text mismatch_text then resequence text data_ else none

abbrev or_same : Option TxData → TxData → Verdict
or_same none d = again d
or_same (some d') d = again d'

abbrev or_complete : Option TxData → Verdict
or_complete none = complete
or_complete (some d) = again d

pub judge_error : Bytes → TxData → Verdict
unfolding after_mismatch
judge_error text data_ =
    if contains_text text (codes "tx already exists in cache")
    then again data_
    else if contains_text text (codes "mempool is full")
    then mempool_full
    else or_same (after_mismatch text data_) data_

judge_response : TxResponse → TxData → Verdict
unfolding after_mismatch
judge_response r data_ =
    if r.code == 0 then complete else or_complete (after_mismatch r.raw_log data_)

judge_result : Option TxResponse → TxData → Verdict
unfolding judge_response
judge_result none data_ = again data_
judge_result (some r) data_ = judge_response r data_

pub judge_by : Option Bytes → Option TxResponse → TxData → Verdict
unfolding judge_error judge_result
judge_by (some text) res data_ = judge_error text data_
judge_by none res data_ = judge_result res data_

unfoldable pub judge : Answer → TxData → Verdict
unfolding judge_by
judge a data_ = judge_by a.err a.res data_

-- How the loop ends, with the last `res` that the wallet returned.
pub data Ending : Type 0 where
  completed : Option TxResponse → Ending
  gave_up : Option TxResponse → Ending
  emptied : Ending

-- `left` attempts are left of ten, and attempt `i` is next.
unfoldable pub attempts : (ℕ → TxData → Answer) → (left i : ℕ) → TxData → Option TxResponse → Ending
unfolding judge
attempts send zero i data_ last = gave_up last
attempts send (suc left) i data_ last = elim (judge (send i data_) data_) [
  | again d ↦ attempts send left (suc i) d (send i data_).res
  | mempool_full ↦ emptied
  | complete ↦ completed (send i data_).res
]

-- `process.err = err; process.res = res; process.msgIndex = i; process.Done()`. `Done` panics on a
-- WaitGroup that is at 0.
pub settle_one : Option Bytes → Option TxResponse → ℕ → Message → Option Message
settle_one err res i m =
    if m.wg == 0
    then none
    else some (record m { err = err; res = res; msg_index = pos i; wg = m.wg - 1 })

abbrev pub store_one : (ℕ → Message) → ℕ → Option Message → Option (ℕ → Message)
store_one store p none = none
store_one store p (some m) = some (update store p m)

unfoldable pub settle :
    Option Bytes → Option TxResponse → ℕ → List ℕ → (ℕ → Message) → Option (ℕ → Message)
unfolding settle_one
settle err res i [] store = some store
settle err res i (p ∷ ps) store = elim (store_one store p (settle_one err res i (store p))) [
  | none ↦ none
  | some store' ↦ settle err res (suc i) ps store'
]

-- The queue afterwards with the two results, or the panic of `Done`.
pub data Outcome : Type 0 where
  returned : Queue → ℕ → Option Bytes → Outcome
  panicked : Outcome

abbrev pub loops_error : Bytes
loops_error = codes "could not complete broadcast in 10 loops"

pub deliver : Queue → List ℕ → Option Bytes → Option TxResponse → Outcome
unfolding settle
deliver q batch err res = elim (settle err res 0 batch q.store) [
  | none ↦ panicked
  | some store ↦ returned (record q { store = store }) (length batch) err
]

-- What follows the loop. A full mempool throws the whole queue away.
pub finish : Queue → List ℕ → Ending → Outcome
unfolding deliver
finish q batch (completed res) = deliver q batch none res
finish q batch (gave_up res) = deliver q batch (some loops_error) res
finish q batch emptied = returned (record q { messages = [] }) 0 none

abbrev pub pending_msgs : Queue → List Msg
pending_msgs q = map (λ p. (q.store p).msg) q.messages

abbrev pub cutoff_of : Queue → ℕ
cutoff_of q = select_cutoff q.max_size_bytes (pending_msgs q)

abbrev pub batch_of : Queue → List ℕ
batch_of q = take (cutoff_of q) q.messages

abbrev pub rest_of : Queue → List ℕ
rest_of q = drop (cutoff_of q) q.messages

abbrev pub tx_data : Queue → TxData
tx_data q = record {
  msgs = map (λ p. (q.store p).msg) (batch_of q);
  memo = codes "Proven by " ++ q.domain;
  sequence = none;
}

-- The batch leaves the queue, is broadcast in at most ten attempts, and is settled.
post_batch : (ℕ → TxData → Answer) → Queue → Outcome
unfolding attempts finish
post_batch send q =
    finish (record q { messages = rest_of q }) (batch_of q) (attempts send 10 0 (tx_data q) none)

unfoldable pub broadcast_by : Mempool → (ℕ → TxData → Answer) → Queue → Outcome
unfolding post_batch
broadcast_by (unreachable e) send q = returned q 0 (some e)
broadcast_by (total n) send q = if ltb_ℤ (pos 2000) n then returned q 0 none else post_batch send q

unfoldable pub broadcast_pending : Chain → Queue → Outcome
unfolding broadcast_by
broadcast_pending chain q = broadcast_by chain.mempool chain.broadcast q
