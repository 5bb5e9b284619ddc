-- ===== src/Queue/Broadcast/During/Commute.antt =====
-- Adding messages while a broadcast runs, and after it (queue/queue.go).
use sequoia.Prelude.{
  ℕ, suc, ◌<◌, Bool, true, false, List, [], ◌∷◌, ◌++◌, ◌≡◌, refl, ap, ◌∙◌, ◌≢◌, Option, none, some,
  arith, length, contains, ==-refl, Bool-cases, inl, inr,
}
use sequoia.Prelude.Int.{ℤ, pos, ltb_ℤ}
use sequoia.Prelude.Bytes.{Bytes}
use sequoia.Queue.Types.{
  PostProof, Msg, nil_msg, post_proof, other_msg, TxResponse, Message, Queue, update,
}
use sequoia.Queue.Add.{add, any_clash, is_duplicate, skipped, queued}
use sequoia.Queue.Broadcast.{
  Mempool, Chain, total, unreachable, Ending, completed, gave_up, emptied, Outcome, returned,
  panicked, TxData, Answer, attempts, settle, deliver, finish, batch_of, rest_of, tx_data,
  loops_error, broadcast_by, broadcast_pending,
}
use sequoia.Queue.Broadcast.Waiters.{IsSound, ending_of, contains_batch}
use sequoia.Queue.Broadcast.During.{add_all, broadcast_while, broadcast_during, then_add}
use sequoia.Queue.Broadcast.During.Outside.{settle-update, SameMsgs, settle_msgs}

any_clash_same :
    (p : PostProof) (f g : ℕ → Message) (is : List ℕ)
    → ((j : ℕ) → (g j).msg ≡ (f j).msg)
    → any_clash p g is ≡ any_clash p f is
unfolding any_clash
any_clash_same p f g [] same = refl
any_clash_same p f g (i ∷ is) same = rw (same i, any_clash_same p f g is same) refl

is_duplicate_same :
    (m : Msg) (f g : ℕ → Message) (is : List ℕ)
    → ((j : ℕ) → (g j).msg ≡ (f j).msg)
    → is_duplicate m g is ≡ is_duplicate m f is
unfolding is_duplicate
is_duplicate_same nil_msg f g is same = refl
is_duplicate_same (other_msg kind) f g is same = refl
is_duplicate_same (post_proof p) f g is same = any_clash_same p f g is same

-- The queue after an `Add`, by the answer of the test.
added : Bool → Msg → Queue → Queue
added true msg q = record q { store = update q.store q.next (skipped msg); next = suc q.next }
added false msg q = record q {
  store = update q.store q.next (queued msg);
  next = suc q.next;
  messages = q.messages ++ q.next ∷ [];
}

add-added :
    (b : Bool) (msg : Msg) (q : Queue)
    → is_duplicate msg q.store q.messages ≡ b
    → (add msg q).0 ≡ added b msg q
unfolding add added
add-added true msg q e = rw e refl
add-added false msg q e = rw e refl

Fresh : List ℕ → Queue → Type 0
Fresh batch q = (i : ℕ) → contains i batch ≡ true → i < q.next

abbrev with_store : Queue → List ℕ → Option Bytes → Option (ℕ → Message) → Outcome
with_store q batch err none = panicked
with_store q batch err (some f) = returned (record q { store = f }) (length batch) err

deliver_with :
    (q : Queue) (batch : List ℕ) (err : Option Bytes) (res : Option TxResponse)
    → deliver q batch err res ≡ with_store q batch err (settle err res 0 batch q.store)
unfolding deliver
deliver_with q batch err res = cases (settle err res 0 batch q.store)
  where
    cases :
        (o : Option (ℕ → Message))
        → (elim o [
          | none ↦ panicked
          | some f ↦ returned (record q { store = f }) (length batch) err
        ])
          ≡ with_store q batch err o
    cases none = refl
    cases (some f) = refl

fresh_outside : (batch : List ℕ) (q : Queue) → Fresh batch q → contains q.next batch ≡ false
unfolding Fresh
fresh_outside batch q v = elim (Bool-cases (contains q.next batch)) [
  | inl e ↦ absurd (omega (arith, v q.next e))
  | inr e ↦ e
]

module _ (err : Option Bytes) (res : Option TxResponse) (batch : List ℕ) where
  delivered_added :
      (b : Bool) (msg : Msg) (q : Queue) (o : Option (ℕ → Message))
      → settle err res 0 batch q.store ≡ o
      → contains q.next batch ≡ false
      → is_duplicate msg q.store q.messages ≡ b
      → deliver (added b msg q) batch err res ≡ then_add (msg ∷ []) (with_store q batch err o)
  unfolding added then_add add_all SameMsgs
  delivered_added true msg q none e out dup =
      deliver_with (added true msg q) batch err res
      ∙ rw (settle-update err res q.next (skipped msg) 0 batch q.store out, e) refl
  delivered_added false msg q none e out dup =
      deliver_with (added false msg q) batch err res
      ∙ rw (settle-update err res q.next (queued msg) 0 batch q.store out, e) refl
  delivered_added true msg q (some f) e out dup =
      deliver_with (added true msg q) batch err res
      ∙ rw (settle-update err res q.next (skipped msg) 0 batch q.store out, e)
          (rw
            (add-added true msg (record q { store = f })
              (is_duplicate_same msg q.store f q.messages (settle_msgs err res 0 batch q.store f e)
                ∙ dup))
            refl)
  delivered_added false msg q (some f) e out dup =
      deliver_with (added false msg q) batch err res
      ∙ rw (settle-update err res q.next (queued msg) 0 batch q.store out, e)
          (rw
            (add-added false msg (record q { store = f })
              (is_duplicate_same msg q.store f q.messages (settle_msgs err res 0 batch q.store f e)
                ∙ dup))
            refl)

  -- One `Add` before the end of the broadcast, or after it.
  deliver-add :
      (msg : Msg) (q : Queue)
      → Fresh batch q
      → deliver (add msg q).0 batch err res ≡ then_add (msg ∷ []) (deliver q batch err res)
  deliver-add msg q v =
      rw (add-added (is_duplicate msg q.store q.messages) msg q refl, deliver_with q batch err res)
        (delivered_added (is_duplicate msg q.store q.messages) msg q
          (settle err res 0 batch q.store) refl (fresh_outside batch q v) refl)

  next_added : (b : Bool) (msg : Msg) (q : Queue) → (added b msg q).next ≡ suc q.next
  unfolding added
  next_added true msg q = refl
  next_added false msg q = refl

  add-Fresh : (msg : Msg) (q : Queue) → Fresh batch q → Fresh batch (add msg q).0
  unfolding Fresh
  add-Fresh msg q v i h =
      rw
        (
          add-added (is_duplicate msg q.store q.messages) msg q refl,
          next_added (is_duplicate msg q.store q.messages) msg q,
        )
        (omega (arith, v i h))

  then_add-then_add :
      (m : Msg) (ms : List Msg) (o : Outcome)
      → then_add ms (then_add (m ∷ []) o) ≡ then_add (m ∷ ms) o
  unfolding then_add add_all
  then_add-then_add m ms panicked = refl
  then_add-then_add m ms (returned q n e) = refl

  deliver-add_all :
      (ms : List Msg) (q : Queue)
      → Fresh batch q
      → deliver (add_all ms q) batch err res ≡ then_add ms (deliver q batch err res)
  unfolding add_all then_add
  deliver-add_all [] q v = nothing (deliver q batch err res)
    where
      nothing : (o : Outcome) → o ≡ then_add [] o
      nothing panicked = refl
      nothing (returned q' n e) = refl
  deliver-add_all (m ∷ ms) q v =
      deliver-add_all ms (add m q).0 (add-Fresh m q v)
      ∙ ap (then_add ms) (deliver-add m q v)
      ∙ then_add-then_add m ms (deliver q batch err res)

was_queued : (q : Queue) (i : ℕ) → contains i (batch_of q) ≡ true → contains i q.messages ≡ true
was_queued q i h = contains_batch q i ∙ rw h refl

finish-add_all :
    (lost : List ℕ) (ms : List Msg) (q : Queue) (e : Ending)
    → IsSound lost q
    → e ≢ emptied
    → finish (add_all ms (record q { messages = rest_of q })) (batch_of q) e
      ≡ then_add ms (finish (record q { messages = rest_of q }) (batch_of q) e)
unfolding finish Fresh
finish-add_all lost ms q emptied v other = absurd (other refl)
finish-add_all lost ms q (completed r) v other =
    deliver-add_all none r (batch_of q) ms (record q { messages = rest_of q })
      (λ i h. v.fresh i (was_queued q i h))
finish-add_all lost ms q (gave_up r) v other =
    deliver-add_all (some loops_error) r (batch_of q) ms (record q { messages = rest_of q })
      (λ i h. v.fresh i (was_queued q i h))

while_commutes :
    (lost : List ℕ) (ms : List Msg) (mempool : Mempool) (send : ℕ → TxData → Answer) (q : Queue)
    → IsSound lost q
    → attempts send 10 0 (tx_data q) none ≢ emptied
    → broadcast_while [] ms mempool send q ≡ then_add ms (broadcast_by mempool send q)
unfolding broadcast_while add_all broadcast_by then_add
while_commutes lost ms (unreachable e) send q v other = refl
while_commutes lost ms (total n) send q v other = elim (Bool-cases (ltb_ℤ (pos 2000) n)) [
  | inl e ↦ rw e refl
  | inr e ↦ rw e (finish-add_all lost ms q (attempts send 10 0 (tx_data q) none) v other)
]

-- Messages that are added while a broadcast runs, after the mempool was asked for and the batch, if there
-- is one, has left the queue, are queued as if they had been added after it, and the broadcast ends as if
-- they had not been there, unless it finds the mempool full. What is assumed of the
-- queue holds after any calls.
pub adds_commute :
    (lost : List ℕ) (ms : List Msg) (chain : Chain) (q : Queue)
    → IsSound lost q
    → ending_of chain q ≢ emptied
    → broadcast_during [] ms chain q ≡ then_add ms (broadcast_pending chain q)
unfolding broadcast_during broadcast_pending
adds_commute lost ms chain q v other =
    while_commutes lost ms chain.mempool chain.broadcast q v other

-- A message that is added while a broadcast runs, and is no duplicate then, is thrown away with the
-- queue if the broadcast finds the mempool full: it is queued no longer, has no result, and whoever
-- waits for it waits.
pub added_is_thrown_away :
    (msg : Msg) (n : ℤ) (send : ℕ → TxData → Answer) (q : Queue)
    → ltb_ℤ (pos 2000) n ≡ false
    → attempts send 10 0 (tx_data q) none ≡ emptied
    → is_duplicate msg q.store (rest_of q) ≡ false
    → (q' : Queue) × (broadcast_during []
          (msg ∷ [])
          (record { mempool = total n; broadcast = send })
          q
        ≡ returned q' 0 none)
      × (q'.messages ≡ [])
      × (q'.store q.next ≡ queued msg)
unfolding broadcast_during broadcast_while finish add_all added
added_is_thrown_away msg n send q small full new =
    let q0 : Queue = record q { messages = rest_of q } in
    (
      record (added false msg q0) { messages = [] },
      rw (small, full, add-added false msg q0 new) refl,
      refl,
      stored_at q0.store q0.next (queued msg),
    )
  where
    stored_at : (f : ℕ → Message) (i : ℕ) (m : Message) → update f i m i ≡ m
    stored_at f i m = rw (==-refl i) refl
