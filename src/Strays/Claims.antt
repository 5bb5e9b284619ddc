-- ===== src/Strays/Claims.antt =====
-- What a round of a hand does (strays/hands.go), against the proof that `GenProof` makes.
use sequoia.Prelude.{◌≡◌, refl, Bool, true, false, List, Option, none, some, ◌⊎◌, inl, inr}
use sequoia.Prelude.Int.{ℤ, pos}
use sequoia.Prelude.Bytes.{Bytes}
use sequoia.FileSystem.Stores.{Badger, Ipfs, Merkle, World}
use sequoia.FileSystem.Read.{ReadError, check_tree, get_file_tree_by_chunk}
use sequoia.Network.{
  Decoders, Attempt, Downloaded, downloaded, no_query, not_on_network, not_found, download_file,
}
use sequoia.Proofs.Generate.{
  ProofError, query_failed, chunk_failed, no_merkle_proof, not_verified, not_marshalled,
  tree_not_valid, gen_proof, generate_merkle_proof, prove_chunk, if_valid, marshalled, verified,
  verify,
}
use sequoia.Queue.Add.{add}
use sequoia.Strays.{Stray, busy}
use sequoia.Strays.Rounds.{
  Desk, let_go, claim_msg, wanted, post_claim, proved, loaded, claim, after_download, take_up,
  with_stray, by_wait, hand_round,
}

module _ (b : Badger) (p : Ipfs) (m : Merkle) (d : Decoders) (attempt : Bytes → Attempt)
    (url_map : List (Bytes × Bytes)) (my_url : Bytes) (chunk_size : ℤ)
    (providers : Bytes → Option (List Bytes)) (params_of : Stray → p.Params) (account : Bytes) where
  open b use {Db}
  open p use {Blocks, Params}

  verified_fails : (pr : m.Proof) (o : Option Bool) → ¬ (verified b p m pr o ≡ inl tree_not_valid)
  unfolding verified
  verified_fails pr none e = cc
  verified_fails pr (some valid) e = cc

  verify_fails :
      (l root : Bytes) (blake : Bool) (o : Option m.Proof)
      → ¬ (verify b p m l root blake o ≡ inl tree_not_valid)
  unfolding verify
  verify_fails l root blake none e = cc
  verify_fails l root blake (some pr) e = verified_fails pr _ e

  -- A proof that does not verify is no error of the making.
  proof_fails :
      (tree : m.Tree) (chunk : Bytes) (proof_type : ℤ)
      → ¬ (generate_merkle_proof b p m tree (pos 0) chunk proof_type ≡ inl tree_not_valid)
  unfolding generate_merkle_proof
  proof_fails tree chunk proof_type e = verify_fails _ _ _ _ e

  -- The hand has let go of its stray, and has put nothing into the queue.
  abbrev pub GivesUp : Desk Db Blocks → Desk Db Blocks → Type 0
  GivesUp h h' = (busy h'.hand ≡ false) × (h'.queue ≡ h.queue) × (h'.awaits ≡ h.awaits)

  module _ (s : Stray) where
    -- The queue has the proof, and the hand holds its stray and waits for the message.
    abbrev pub Posts : Bytes → Bytes → Desk Db Blocks → Desk Db Blocks → Type 0
    Posts chunk proof h h' =
        let (q, i) = add (claim_msg account s chunk proof) h.queue in
        (h'.queue ≡ q) × (h'.awaits ≡ some i) × (h'.hand ≡ h.hand)

    abbrev pub PostsIfText : Bytes → Option Bytes → Desk Db Blocks → Desk Db Blocks → Type 0
    PostsIfText chunk none h h' = GivesUp h h'
    PostsIfText chunk (some proof) h h' = Posts chunk proof h h'

    -- By what `GenProof` gives. Where it fails because the proof does not verify, the proof that it made
    -- is posted all the same, if it can be written down.
    abbrev pub Hands :
        ProofError ⊎ (Bytes × Bytes) → World Db Blocks → Desk Db Blocks → Desk Db Blocks → Type 0
    Hands (inr (proof, item)) w h h' = Posts item proof h h'
    Hands (inl tree_not_valid) w h h' =
        (tree : m.Tree) × (chunk : Bytes) × (proof : m.Proof) × (get_file_tree_by_chunk b p m w
            s.merkle s.owner s.start (pos 0) chunk_size s.proof_type
          ≡ inr (tree, chunk))
        × (generate_merkle_proof b p m tree (pos 0) chunk s.proof_type ≡ inr (false, proof))
        × PostsIfText chunk (m.marshal_proof proof) h h'
    Hands (inl _) w h h' = GivesUp h h'

    -- The files are the given ones, and the proof is handed on.
    abbrev pub Claims :
        ProofError ⊎ (Bytes × Bytes) → World Db Blocks → Desk Db Blocks → Desk Db Blocks → Type 0
    Claims g w h h' = (h'.world ≡ w) × Hands g w h h'

    post_claim-Claims :
        (chunk : Bytes) (o : Option Bytes) (h : Desk Db Blocks)
        → Claims (marshalled b p m chunk o) h.world h (
            post_claim b p m d attempt url_map my_url chunk_size providers params_of account s chunk
              o h)
    unfolding post_claim marshalled
    post_claim-Claims chunk none h = (refl, (refl, refl, refl))
    post_claim-Claims chunk (some proof) h = (refl, (refl, refl, refl))

    post_claim-PostsIfText :
        (chunk : Bytes) (o : Option Bytes) (h : Desk Db Blocks)
        → let h' =
            post_claim b p m d attempt url_map my_url chunk_size providers params_of account s chunk
              o h in
          (h'.world ≡ h.world) × PostsIfText chunk o h h'
    unfolding post_claim
    post_claim-PostsIfText chunk none h = (refl, (refl, refl, refl))
    post_claim-PostsIfText chunk (some proof) h = (refl, (refl, refl, refl))

    fails-Hands :
        (tree : m.Tree) (chunk : Bytes) (e : ProofError) (h : Desk Db Blocks)
        → generate_merkle_proof b p m tree (pos 0) chunk s.proof_type ≡ inl e
        → Hands (inl e) h.world h (let_go h)
    fails-Hands tree chunk (query_failed code) h made = (refl, refl, refl)
    fails-Hands tree chunk (chunk_failed e) h made = (refl, refl, refl)
    fails-Hands tree chunk no_merkle_proof h made = (refl, refl, refl)
    fails-Hands tree chunk not_verified h made = (refl, refl, refl)
    fails-Hands tree chunk tree_not_valid h made = absurd (proof_fails tree chunk s.proof_type made)
    fails-Hands tree chunk not_marshalled h made = (refl, refl, refl)

    proved-Claims :
        (tree : m.Tree) (chunk : Bytes) (o : ProofError ⊎ (Bool × m.Proof)) (h : Desk Db Blocks)
        → get_file_tree_by_chunk b p m h.world s.merkle s.owner s.start
            (pos 0)
            chunk_size
            s.proof_type
          ≡ inr (tree, chunk)
        → generate_merkle_proof b p m tree (pos 0) chunk s.proof_type ≡ o
        → Claims (if_valid b p m chunk o) h.world h (
            proved b p m d attempt url_map my_url chunk_size providers params_of account s chunk o
              h)
    unfolding proved post_claim if_valid
    proved-Claims tree chunk (inl e) h read made = (refl, fails-Hands tree chunk e h made)
    proved-Claims tree chunk (inr (true, proof)) h read made =
        post_claim-Claims chunk (m.marshal_proof proof) h
    proved-Claims tree chunk (inr (false, proof)) h read made =
        let (same, posts) = post_claim-PostsIfText chunk (m.marshal_proof proof) h in
        (same, (tree, chunk, proof, read, made, posts))

    loaded-Claims :
        (o : ReadError ⊎ (m.Tree × Bytes)) (h : Desk Db Blocks)
        → get_file_tree_by_chunk b p m h.world s.merkle s.owner s.start
            (pos 0)
            chunk_size
            s.proof_type
          ≡ o
        → Claims
            (prove_chunk b p m (pos 0) s.proof_type o)
            h.world
            h
            (loaded b p m d attempt url_map my_url chunk_size providers params_of account s o h)
    unfolding loaded prove_chunk
    loaded-Claims (inl e) h read = (refl, (refl, refl, refl))
    loaded-Claims (inr (tree, chunk)) h read =
        proved-Claims tree chunk (generate_merkle_proof b p m tree (pos 0) chunk s.proof_type) h
          read refl

    claim-Claims :
        (h : Desk Db Blocks)
        → Claims
            (gen_proof b p m h.world s.merkle s.owner s.start (pos 0) chunk_size s.proof_type)
            h.world
            h
            (claim b p m d attempt url_map my_url chunk_size providers params_of account s h)
    unfolding claim gen_proof
    claim-Claims h = loaded-Claims _ h refl

    abbrev pub Fetched : World Db Blocks × Downloaded → Desk Db Blocks → Desk Db Blocks → Type 0
    Fetched (w, downloaded) h h' =
        Claims (gen_proof b p m w s.merkle s.owner s.start (pos 0) chunk_size s.proof_type) w
          (record h { world = w }) h'
    Fetched (w, _) h h' = (h'.world ≡ w) × GivesUp h h'

    -- A round with the stray, by whether its tree is there, or the download brings it.
    abbrev pub Outcome : Option Bool → Desk Db Blocks → Desk Db Blocks → Type 0
    Outcome none h h' = (h'.world ≡ h.world) × GivesUp h h'
    Outcome (some true) h h' =
        Claims (gen_proof b p m h.world s.merkle s.owner s.start (pos 0) chunk_size s.proof_type)
          h.world h h'
    Outcome (some false) h h' =
        Fetched
          (download_file b p m d attempt url_map my_url chunk_size (providers s.merkle)
            (wanted b p m d attempt url_map my_url chunk_size providers params_of account s)
            h.world)
          h h'

    after_download-Fetched :
        (r : World Db Blocks × Downloaded) (h : Desk Db Blocks)
        → Fetched r h (
            after_download b p m d attempt url_map my_url chunk_size providers params_of account s r
              h)
    unfolding after_download
    after_download-Fetched (w, downloaded) h = claim-Claims (record h { world = w })
    after_download-Fetched (w, no_query) h = (refl, (refl, refl, refl))
    after_download-Fetched (w, not_on_network) h = (refl, (refl, refl, refl))
    after_download-Fetched (w, not_found) h = (refl, (refl, refl, refl))

    take_up-Outcome :
        (o : Option Bool) (h : Desk Db Blocks)
        → Outcome o h
            (take_up b p m d attempt url_map my_url chunk_size providers params_of account s o h)
    unfolding take_up
    take_up-Outcome none h = (refl, (refl, refl, refl))
    take_up-Outcome (some true) h = claim-Claims h
    take_up-Outcome (some false) h = after_download-Fetched _ h

    -- A round with a stray: when its tree is on disk, or a download has brought it, the queue gets the
    -- proof of the first chunk that `GenProof` makes, and the hand keeps the stray and waits for that
    -- message; when `GenProof` fails, the queue gets nothing and the hand is idle, but where it fails
    -- because the proof does not verify, the hand posts that very proof all the same. Otherwise the queue
    -- stays as it is and the hand is idle. The files are those from before the round, or those that the
    -- download left.
    pub hand_round-Outcome :
        (h : Desk Db Blocks)
        → h.awaits ≡ none
        → h.hand.running ≡ true
        → h.hand.stray ≡ some s
        → Outcome
            (check_tree b p m h.world s.merkle s.owner s.start)
            h
            (hand_round b p m d attempt url_map my_url chunk_size providers params_of account h)
    unfolding hand_round by_wait with_stray
    hand_round-Outcome h free running holds =
        simp (free, running, holds)
          (take_up-Outcome (check_tree b p m h.world s.merkle s.owner s.start) h)
