-- ===== src/Proofs/Post/Outcome.antt =====
-- What `wrapPostProof` does to the prover, the files and the queue (proofs/proofs.go).
use sequoia.Prelude.{
  ℕ, ◌==◌, if◌then◌else◌, Bool, true, false, not, ◌&&◌, List, ◌≡◌, refl, Option, none, some, arith,
  Bool-cases, inl, inr, ap, ltb, [], ◌∷◌, get_elem?,
}
use sequoia.Prelude.Int.{ℤ, negsuc, eqb_ℤ, pos_part}
use sequoia.Prelude.Bytes.{Bytes}
use sequoia.FileSystem.Stores.{Badger, Ipfs}
use sequoia.FileSystem.Delete.{delete_file}
use sequoia.FileSystem.Read.{is_key_not_found}
use sequoia.Prelude.Bytes.Hex.{hex_decode}
use sequoia.Queue.Types.{Msg, Message, Queue, TxResponse, index_of}
use sequoia.Queue.Add.{add, skipped, queued, is_duplicate}
use sequoia.Proofs.Generate.{
  ProofError, query_failed, chunk_failed, no_merkle_proof, not_verified, tree_not_valid,
  not_marshalled, Generated, generated, nothing, gen_failed,
}
use sequoia.Proofs.Pool.{dec}
use sequoia.Proofs.Post.{
  Codec, Job, Host, proof_msg, wrap_post_proof, cleaned, dropped, key_missing, enqueue, wrap_ended,
  wrap_error, PostError, Ended, ungenerated, unposted, read_response, response_at, read_data,
  read_hex, read_res, status_code, read_reply,
}

-- Whether the prover gives the file up: the chain does not know it, or its tree or CID is not on
-- disk, or the queue met a "not found" when it posted the proof.
abbrev pub error_gives_up : ProofError → Bool
error_gives_up (query_failed code) = code == 5
error_gives_up (chunk_failed e) = is_key_not_found e
error_gives_up no_merkle_proof = false
error_gives_up not_verified = false
error_gives_up tree_not_valid = false
error_gives_up not_marshalled = false

abbrev pub reply_gives_up : Codec → Option Bytes → Bool
reply_gives_up c none = false
reply_gives_up c (some e) = c.error_code e == 5

abbrev pub gives_up : Codec → Job → Queue → Message → Generated → Bool
gives_up c j q reply (gen_failed e) = error_gives_up e
gives_up c j q reply nothing = false
gives_up c j q reply (generated proof item index) =
    not (is_duplicate (proof_msg j item proof index) q.store q.messages)
    && reply_gives_up c reply.err

-- The queue after the call: a generated proof is added.
abbrev pub queue_after : Job → Queue → Generated → Queue
queue_after j q (generated proof item index) = (add (proof_msg j item proof index) q).0
queue_after j q (gen_failed e) = q
queue_after j q nothing = q

module _ (b : Badger) (p : Ipfs) (order : List ℕ → List ℕ) (fuel : ℕ) (c : Codec) where
  -- What an error changes: it may delete the file.
  wrap_error-world :
      (j : Job) (h : Host b.Db p.Blocks) (e : PostError) (gone : Bool)
      → (status_code b p order fuel c e == 5) ≡ gone
      → ((wrap_error b p order fuel c j h e).prover ≡ h.prover)
        × ((wrap_error b p order fuel c j h e).queue ≡ h.queue)
        × ((wrap_error b p order fuel c j h e).world ≡ (
            if gone
            then (delete_file b p order fuel h.world j.merkle j.owner j.start).0
            else h.world))
  unfolding wrap_error dropped
  wrap_error-world j h e true at =
      let below : ltb 5 (status_code b p order fuel c e) ≡ false = ground arith in
      rw (below, at) (refl, refl, refl)
  wrap_error-world j h e false at = elim (Bool-cases (ltb 5 (status_code b p order fuel c e))) [
    | inl above ↦ rw above (refl, refl, refl)
    | inr below ↦ rw (below, at) (refl, refl, refl)
  ]

  -- An ending that is no error of the queue leaves everything as it is.
  abbrev Quiet : Ended → Type 0
  Quiet x = (j : Job) (h : Host b.Db p.Blocks) → wrap_ended b p order fuel c j (h, x) ≡ h

  read_response-Quiet : (o : Option Bool) → Quiet (read_response c o)
  unfolding read_response wrap_ended wrap_error status_code
  read_response-Quiet none j h = refl
  read_response-Quiet (some success) j h = refl

  response_at-Quiet : (o : Option Bytes) → Quiet (response_at c o)
  unfolding response_at wrap_ended
  response_at-Quiet none j h = refl
  response_at-Quiet (some d) j h = read_response-Quiet (c.post_response d) j h

  read_data-Quiet : (index : ℤ) (o : Option (List Bytes)) → Quiet (read_data c index o)
  unfolding read_data wrap_ended wrap_error status_code
  read_data-Quiet index none j h = refl
  read_data-Quiet index (some []) j h = refl
  read_data-Quiet index (some (d ∷ ds)) j h =
      response_at-Quiet (get_elem? (d ∷ ds) (pos_part index)) j h

  read_hex-Quiet : (index : ℤ) (o : Option Bytes) → Quiet (read_hex c index o)
  unfolding read_hex wrap_ended wrap_error status_code
  read_hex-Quiet index none j h = refl
  read_hex-Quiet index (some raw) j h = read_data-Quiet index (c.tx_msg_data raw) j h

  read_res-Quiet : (index : ℤ) (o : Option TxResponse) → Quiet (read_res c index o)
  unfolding read_res wrap_ended
  read_res-Quiet index none j h = refl
  read_res-Quiet index (some r) j h = elim (Bool-cases (r.code == 0)) [
    | inl fine ↦ rw fine (read_hex-Quiet index (hex_decode r.data_hex) j h)
    | inr bad ↦ rw bad refl
  ]

  -- How a posted proof ends.
  reply-world :
      (j : Job) (h : Host b.Db p.Blocks) (index : ℤ) (err : Option Bytes) (res : Option TxResponse)
      → let h' = wrap_ended b p order fuel c j (h, read_reply c index err res) in
        (h'.prover ≡ h.prover)
        × (h'.queue ≡ h.queue)
        × (h'.world ≡ (
            if reply_gives_up c err
            then (delete_file b p order fuel h.world j.merkle j.owner j.start).0
            else h.world))
  unfolding read_reply wrap_ended status_code
  reply-world j h index (some e) res = wrap_error-world j h (unposted e) (c.error_code e == 5) refl
  reply-world j h index none res =
      let quiet = read_res-Quiet index res j h in
      (
        ap (λ (x : Host b.Db p.Blocks). x.prover) quiet,
        ap (λ (x : Host b.Db p.Blocks). x.queue) quiet,
        ap (λ (x : Host b.Db p.Blocks). x.world) quiet,
      )

  -- The message that `Add` makes has the index -1 exactly when it is a duplicate.
  add-index :
      (msg : Msg) (q : Queue)
      → eqb_ℤ (index_of ((add msg q).0.store (add msg q).1)) (negsuc 0)
        ≡ is_duplicate msg q.store q.messages
  unfolding add skipped queued
  add-index msg q =
      let self : (q.next == q.next) ≡ true = ground arith in
      elim (Bool-cases (is_duplicate msg q.store q.messages)) [
        | inl dup ↦ rw (dup, self) refl
        | inr new ↦ rw (new, self) refl
      ]

  added-world :
      (j : Job) (h : Host b.Db p.Blocks) (reply : Message) (msg : Msg)
      → let h' = wrap_ended b p order fuel c j (enqueue b p order fuel c j reply msg h) in
        (h'.prover ≡ h.prover)
        × (h'.queue ≡ (add msg h.queue).0)
        × (h'.world ≡ (
            if not (is_duplicate msg h.queue.store h.queue.messages) && reply_gives_up c reply.err
            then (delete_file b p order fuel h.world j.merkle j.owner j.start).0
            else h.world))
  unfolding enqueue wrap_ended
  added-world j h reply msg =
      let index = add-index msg h.queue in
      elim (Bool-cases (is_duplicate msg h.queue.store h.queue.messages)) [
        | inl dup ↦ rw (index, dup) (refl, refl, refl)
        | inr new ↦
            rw (index, new)
              (reply-world j (record h { queue = (add msg h.queue).0 }) reply.msg_index reply.err
                reply.res)
      ]

  -- Every call of `wrapPostProof` takes one off the count of running proofs, whatever comes of it; it
  -- adds a message to the queue exactly when a proof was generated; and it deletes the file exactly
  -- when the chain does not know it, its tree or CID is missing on disk, or the queue took the proof
  -- and answers with an error whose gRPC code is "not found", and leaves the files alone otherwise.
  pub wrap_post_proof_outcome :
      (j : Job) (gen : Generated) (reply : Message) (h : Host b.Db p.Blocks)
      → ((wrap_post_proof b p order fuel c j gen reply h).prover ≡ dec h.prover)
        × ((wrap_post_proof b p order fuel c j gen reply h).queue ≡ queue_after j h.queue gen)
        × ((wrap_post_proof b p order fuel c j gen reply h).world ≡ (
            if gives_up c j h.queue reply gen
            then (delete_file b p order fuel h.world j.merkle j.owner j.start).0
            else h.world))
  unfolding wrap_post_proof cleaned dropped key_missing wrap_ended wrap_error status_code
  wrap_post_proof_outcome j nothing reply h = (refl, refl, refl)
  wrap_post_proof_outcome j (gen_failed (query_failed code)) reply h =
      wrap_error-world j (record h { prover = dec h.prover }) (ungenerated (query_failed code))
        (code == 5) refl
  wrap_post_proof_outcome j (gen_failed (chunk_failed e)) reply h =
      elim (Bool-cases (is_key_not_found e)) [
        | inl missing ↦ rw missing (refl, refl, refl)
        | inr other ↦ rw other (refl, refl, refl)
      ]
  wrap_post_proof_outcome j (gen_failed no_merkle_proof) reply h = (refl, refl, refl)
  wrap_post_proof_outcome j (gen_failed not_verified) reply h = (refl, refl, refl)
  wrap_post_proof_outcome j (gen_failed tree_not_valid) reply h = (refl, refl, refl)
  wrap_post_proof_outcome j (gen_failed not_marshalled) reply h = (refl, refl, refl)
  wrap_post_proof_outcome j (generated proof item index) reply h =
      added-world j (record h { prover = dec h.prover }) reply (proof_msg j item proof index)
