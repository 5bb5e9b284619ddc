-- ===== src/Proofs/Post/Posted.antt =====
-- A proof that `PostProof` (proofs/proofs.go) was given reaches the queue.
use sequoia.Prelude.{ℕ, List, ◌≡◌, refl, Bool-cases, inl, inr}
use sequoia.Prelude.Int.{ℤ, negsuc, eqb_ℤ}
use sequoia.Prelude.Bytes.{Bytes}
use sequoia.FileSystem.Stores.{Badger, Ipfs}
use sequoia.Queue.Types.{Msg, Message, index_of}
use sequoia.Queue.Add.{add}
use sequoia.Proofs.Generate.{generated}
use sequoia.Proofs.Pool.{dec}
use sequoia.Proofs.Post.{Codec, Job, Host, proof_msg, enqueue, post_proof_of}

module _ (b : Badger) (p : Ipfs) (order : List ℕ → List ℕ) (fuel : ℕ) (c : Codec) where
  enqueue_queue :
      (j : Job) (reply : Message) (msg : Msg) (h : Host b.Db p.Blocks)
      → (enqueue b p order fuel c j reply msg h).0.queue ≡ (add msg h.queue).0
  unfolding enqueue
  enqueue_queue j reply msg h =
      elim (Bool-cases
        (eqb_ℤ (index_of ((add msg h.queue).0.store (add msg h.queue).1)) (negsuc 0))) [
          | inl skip ↦ rw skip refl
          | inr new ↦ rw new refl
        ]

  pub post_proof_of-queue :
      (j : Job) (proof item : Bytes) (index : ℤ) (reply : Message) (h : Host b.Db p.Blocks)
      → (post_proof_of b p order fuel c j (generated proof item index) reply h).0.queue
        ≡ (add (proof_msg j item proof index) h.queue).0
  unfolding post_proof_of
  post_proof_of-queue j proof item index reply h =
      enqueue_queue j reply (proof_msg j item proof index) (record h { prover = dec h.prover })
