-- ===== src/Queue/Broadcast/During.antt =====
-- `Add` while `BroadcastPending` broadcasts (queue/queue.go). Nothing keeps them apart: messages are added
-- while the mempool is asked for, when the length of the queue is already taken, and then to the queue
-- that the batch has left, and what ends the broadcast meets that queue.
pub mod Outside
pub mod Commute
use sequoia.Prelude.{
  ℕ, zero, suc, ◌<◌, ◌==◌, if◌then◌else◌, Bool, true, false, ◌&&◌, ◌||◌, List, [], ◌∷◌, ◌++◌, ◌≡◌,
  refl, sym, ap, ◌∙◌, Option, none, some, arith, length, drop, contains, Bool-cases, inl, inr,
}
use mathlib.Core.Path.{fun_ext}
use sequoia.Prelude.Int.{ℤ, pos, ltb_ℤ}
use sequoia.Prelude.Bytes.{Bytes}
use sequoia.Queue.Types.{
  PostProof, Msg, nil_msg, post_proof, other_msg, TxResponse, Message, Queue, update,
}
use sequoia.Queue.Add.{add, clashes, any_clash, is_duplicate, skipped, queued}
use sequoia.Queue.Broadcast.{
  Mempool, Chain, total, unreachable, Ending, completed, gave_up, emptied, Outcome, returned,
  panicked, TxData, Answer, attempts, settle_one, store_one, settle, deliver, finish, batch_of,
  cutoff_of, rest_of, tx_data, loops_error, broadcast_by, broadcast_pending,
}
use sequoia.Queue.Broadcast.Waiters.{IsSound, ending_of}

unfoldable pub add_all : List Msg → Queue → Queue
add_all [] q = q
add_all (m ∷ ms) q = add_all ms (add m q).0

-- The first adds come while the mempool is asked for. The batch is one of the messages that were queued
-- before. The other adds come between the moment when the batch leaves the queue and the end of the
-- attempts, or, where the mempool is not open, after the check.
pub broadcast_while : (early late : List Msg) → Mempool → (ℕ → TxData → Answer) → Queue → Outcome
unfolding add_all
broadcast_while early late (unreachable e) send q =
    returned (add_all late (add_all early q)) 0 (some e)
broadcast_while early late (total n) send q =
    let q' = add_all early q in
    if ltb_ℤ (pos 2000) n
    then returned (add_all late q') 0 none
    else finish (add_all late (record q' { messages = drop (cutoff_of q) q'.messages }))
        (batch_of q) (attempts send 10 0 (tx_data q) none)

unfoldable pub broadcast_during : (early late : List Msg) → Chain → Queue → Outcome
unfolding broadcast_while
broadcast_during early late chain q = broadcast_while early late chain.mempool chain.broadcast q

-- The same adds after the broadcast.
unfoldable pub then_add : List Msg → Outcome → Outcome
then_add ms (returned q n err) = returned (add_all ms q) n err
then_add ms panicked = panicked
