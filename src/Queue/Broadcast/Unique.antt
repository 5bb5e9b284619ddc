-- ===== src/Queue/Broadcast/Unique.antt =====
-- The queue never holds two proofs of one contract (`Add` in queue/queue.go).
use sequoia.Prelude.{
  ℕ, suc, ◌-◌, append-nil, ◌==◌, ==-refl, true, false, List, [], ◌∷◌, ◌++◌, ◌≡◌, ◌≢◌, refl, ◌∙◌,
  Option, none, some, arith, contains, Bool-cases, inl, inr, take-append-drop,
}
use sequoia.Prelude.Int.{ℤ, pos, ltb_ℤ, eqb_ℤ-refl}
use sequoia.Prelude.Bytes.{Bytes, bytes_equal_refl}
use sequoia.Config.Types.{RateLimitConfig}
use sequoia.Queue.Types.{PostProof, Msg, post_proof, TxResponse, Message, Queue, update}
use sequoia.Queue.Add.{add, new_queue, is_duplicate, clashes}
use sequoia.Queue.Broadcast.{
  TxData, Answer, Mempool, Ending, Outcome, total, unreachable, completed, gave_up, emptied,
  returned, panicked, settle, settle_one, finish, post_batch, broadcast_by, broadcast_pending,
  batch_of, rest_of, loops_error, attempts, tx_data, cutoff_of,
}
use sequoia.Queue.Broadcast.Waiters.{IsSound, new_queue-IsSound}
use sequoia.Queue.Broadcast.Runs.{Event, adds, broadcasts, step, run, after, step-Steps, lost_of}
use sequoia.Queue.Broadcast.Different.{
  conflict, is_duplicate_cons, is_duplicate_ext, conflict_comm, AllDifferent, AllDifferent-ext,
  AllDifferent-concat, AllDifferent-right,
}

add-AllDifferent :
    (lost : List ℕ) (msg : Msg) (q : Queue)
    → IsSound lost q
    → AllDifferent q.store q.messages
    → AllDifferent (add msg q).0.store (add msg q).0.messages
unfolding add
add-AllDifferent lost msg q v d = elim (Bool-cases (is_duplicate msg q.store q.messages)) [
  | inl dup ↦ rw dup (AllDifferent-ext q.store _ q.messages (λ i h. ground (arith, v.fresh i h)) d)
  | inr new ↦ rw new (
      AllDifferent-concat _ q.messages q.next
        (AllDifferent-ext q.store _ q.messages (λ i h. ground (arith, v.fresh i h)) d)
        (rw (==-refl q.next)
          (is_duplicate_ext msg q.store _ q.messages (λ i h. ground (arith, v.fresh i h)) ∙ new)))
]

-- What a broadcast keeps: a tail of the queue, and every `msg`.
abbrev KeepsTail : Queue → Outcome → Type 0
KeepsTail q (returned q' n err) =
    (sent : List ℕ) × (sent ++ q'.messages ≡ q.messages)
    × ((i : ℕ) → (q'.store i).msg ≡ (q.store i).msg)
KeepsTail q panicked = Unit {0}

abbrev KeepsMsgs : (ℕ → Message) → Option (ℕ → Message) → Type 0
KeepsMsgs store none = Unit {0}
KeepsMsgs store (some store') = (i : ℕ) → (store' i).msg ≡ (store i).msg

KeepsMsgs-trans :
    (f g : ℕ → Message) (r : Option (ℕ → Message))
    → ((i : ℕ) → (g i).msg ≡ (f i).msg)
    → KeepsMsgs g r
    → KeepsMsgs f r
KeepsMsgs-trans f g none h k = tt
KeepsMsgs-trans f g (some r) h k = λ i. k i ∙ h i

settle-KeepsMsgs :
    (err : Option Bytes) (res : Option TxResponse) (i : ℕ) (ps : List ℕ) (store : ℕ → Message)
    → KeepsMsgs store (settle err res i ps store)
unfolding settle
settle-KeepsMsgs err res i [] store = λ j. refl
settle-KeepsMsgs err res i (p ∷ ps) store = elim (Bool-cases ((store p).wg == 0)) [
  | inl z ↦ rw (z, settle_one, settle) tt
  | inr w ↦
      let m : Message = record (store p) {
        err = err;
        res = res;
        msg_index = pos i;
        wg = (store p).wg - 1;
      } in
      rw (w, settle_one, settle)
        (KeepsMsgs-trans store (update store p m) _ (λ j. ground arith)
          (settle-KeepsMsgs err res (suc i) ps (update store p m)))
]

deliver_from :
    (q : Queue) (ms : List ℕ) (n : ℕ) (err : Option Bytes) (r : Option (ℕ → Message))
    → KeepsMsgs q.store r
    → KeepsTail q (elim r [
      | none ↦ panicked
      | some store ↦ returned (record q { messages = rest_of q; store = store }) n err
    ])
deliver_from q ms n err none k = tt
deliver_from q ms n err (some store) k = (batch_of q, take-append-drop (cutoff_of q) q.messages, k)

finish-KeepsTail :
    (q : Queue) (e : Ending)
    → KeepsTail q (finish (record q { messages = rest_of q }) (batch_of q) e)
unfolding finish
finish-KeepsTail q (completed r) =
    deliver_from q [] _ none _ (settle-KeepsMsgs none r 0 (batch_of q) q.store)
finish-KeepsTail q (gave_up r) =
    deliver_from q [] _ (some loops_error) _
      (settle-KeepsMsgs (some loops_error) r 0 (batch_of q) q.store)
finish-KeepsTail q emptied = (q.messages, append-nil q.messages, λ i. refl)

broadcast_by-KeepsTail :
    (m : Mempool) (send : ℕ → TxData → Answer) (q : Queue) → KeepsTail q (broadcast_by m send q)
unfolding broadcast_by post_batch
broadcast_by-KeepsTail (unreachable e) send q = ([], refl, λ i. refl)
broadcast_by-KeepsTail (total n) send q = elim (Bool-cases (ltb_ℤ (pos 2000) n)) [
  | inl big ↦ rw big ([], refl, λ i. refl)
  | inr small ↦ rw small (finish-KeepsTail q (attempts send 10 0 (tx_data q) none))
]

after-AllDifferent :
    (q : Queue) (o : Outcome) (q' : Queue)
    → KeepsTail q o
    → after o ≡ some q'
    → AllDifferent q.store q.messages
    → AllDifferent q'.store q'.messages
after-AllDifferent q panicked q' k e d = cc
after-AllDifferent q (returned p n err) q' k e d =
    let same : p ≡ q' = ground arith in
    rw (← same) (
      AllDifferent-ext q.store p.store p.messages (λ i h. k.2 i)
        (AllDifferent-right q.store k.0 p.messages (rw k.1 d)))

step-AllDifferent :
    (lost : List ℕ) (e : Event) (q q' : Queue)
    → IsSound lost q
    → step e q ≡ some q'
    → AllDifferent q.store q.messages
    → AllDifferent q'.store q'.messages
unfolding step
step-AllDifferent lost (adds msg) q q' v e d =
    let same : (add msg q).0 ≡ q' = ground arith in rw (← same) (add-AllDifferent lost msg q v d)
step-AllDifferent lost (broadcasts chain) q q' v e d =
    after-AllDifferent q (broadcast_pending chain q) q'
      (unfold broadcast_pending in broadcast_by-KeepsTail chain.mempool chain.broadcast q) e d

run-AllDifferent :
    (lost : List ℕ) (es : List Event) (q q' : Queue)
    → IsSound lost q
    → AllDifferent q.store q.messages
    → run es q ≡ some q'
    → AllDifferent q'.store q'.messages
unfolding run
run-AllDifferent lost [] q q' v d e = let same : q ≡ q' = ground arith in rw (← same) d
run-AllDifferent lost (a ∷ es) q q' v d e =
    let (p, s, w) = step-Steps lost a q v in
    run-AllDifferent (lost ++ lost_of a q) es p q' w (step-AllDifferent lost a q p v s d)
      (rw (s, run) at e)

-- The key under which the chain keeps a contract.
abbrev pub SameContract : PostProof → PostProof → Type 0
SameContract p r = (p.merkle ≡ r.merkle) × (p.start ≡ r.start) × (p.owner ≡ r.owner)

clashes_of_SameContract : (p r : PostProof) → SameContract p r → clashes p (post_proof r) ≡ true
unfolding clashes
clashes_of_SameContract p r h =
    rw (h.0, h.1, h.2, bytes_equal_refl r.merkle, eqb_ℤ-refl r.start, bytes_equal_refl r.owner)

not_duplicate :
    (m : Msg) (store : ℕ → Message) (is : List ℕ) (j : ℕ)
    → is_duplicate m store is ≡ false
    → contains j is ≡ true
    → conflict m (store j).msg ≡ false
not_duplicate m store [] j h k = cc
not_duplicate m store (i ∷ is) j h k = elim (Bool-cases (j == i)) [
  | inl same ↦ let e : j ≡ i = ground arith in rw e (ground (arith, is_duplicate_cons m store i is))
  | inr other ↦
      not_duplicate m store is j (ground (arith, is_duplicate_cons m store i is)) (ground arith)
]

AllDifferent-apart :
    (store : ℕ → Message) (is : List ℕ) (i j : ℕ)
    → AllDifferent store is
    → contains i is ≡ true
    → contains j is ≡ true
    → i ≢ j
    → conflict (store i).msg (store j).msg ≡ false
AllDifferent-apart store [] i j d hi hj n = cc
AllDifferent-apart store (x ∷ is) i j d hi hj n = elim (Bool-cases (i == x)) [
  | inl at_i ↦
      let e : i ≡ x = ground arith in
      rw e (not_duplicate (store x).msg store is j d.0 (ground arith))
  | inr not_i ↦ elim (Bool-cases (j == x)) [
    | inl at_j ↦
        let e : j ≡ x = ground arith in
        rw e (
          conflict_comm (store i).msg (store x).msg
          ∙ not_duplicate (store x).msg store is i d.0 (ground arith))
    | inr not_j ↦ AllDifferent-apart store is i j d.1 (ground arith) (ground arith) n
  ]
]

-- Whatever was added and broadcast, two messages that are queued at one time are not proofs of one
-- contract: they differ in the Merkle root, the start or the owner.
pub run_unique :
    (now interval : ℕ) (max_size_bytes : ℤ) (domain : Bytes) (rl : RateLimitConfig)
    (es : List Event) (q' : Queue) (i j : ℕ) (p r : PostProof)
    → run es (new_queue now interval max_size_bytes domain rl) ≡ some q'
    → contains i q'.messages ≡ true
    → contains j q'.messages ≡ true
    → i ≢ j
    → (q'.store i).msg ≡ post_proof p
    → (q'.store j).msg ≡ post_proof r
    → ¬ SameContract p r
run_unique now interval max_size_bytes domain rl es q' i j p r e hi hj n ei ej h =
    let d =
      run-AllDifferent [] es _ q' (new_queue-IsSound now interval max_size_bytes domain rl)
        (unfold new_queue in tt) e in
    let c = AllDifferent-apart q'.store q'.messages i j d hi hj n in
    let c' : clashes p (post_proof r) ≡ false = rw (ei, ej) at c in
    let t = clashes_of_SameContract p r h in cc
