-- ===== src/Strays/Rounds.antt =====
-- A round of a hand (`Start` of strays/hands.go): download a stray that is not there, prove its first
-- chunk, put the proof into the queue, and wait until its message is released. What the queue makes of it
-- is only logged.
use sequoia.Prelude.{
  ℕ, ◌==◌, if◌then◌else◌, Bool, true, false, List, Option, none, some, ◌⊎◌, inl, inr,
}
use sequoia.Prelude.Int.{ℤ, pos}
use sequoia.Prelude.Bytes.{Bytes}
use sequoia.FileSystem.Stores.{Badger, Ipfs, Merkle, World}
use sequoia.FileSystem.Read.{ReadError, check_tree, get_file_tree_by_chunk}
use sequoia.Network.{Decoders, Attempt, Wanted, Downloaded, downloaded, download_file}
use sequoia.Proofs.Generate.{ProofError, generate_merkle_proof}
use sequoia.Proofs.Post.{proof_msg}
use sequoia.Queue.Types.{Msg, Queue}
use sequoia.Queue.Add.{add}
use sequoia.Strays.{Stray, Hand, take_stray}

-- A hand, the message for which it waits in `wg.Wait()`, the files and the queue.
pub record Desk (Db Blocks : Type 0) : Type 0 where
  pub hand : Hand
  pub awaits : Option ℕ
  pub world : World Db Blocks
  pub queue : Queue

-- The proof of the first chunk; the index is left at 0.
abbrev pub claim_msg : Bytes → Stray → Bytes → Bytes → Msg
claim_msg account s item proof =
    proof_msg (record { account = account; merkle = s.merkle; owner = s.owner; start = s.start })
      item proof (pos 0)

-- `h.stray = nil`.
abbrev pub let_go : {Db Blocks : Type 0} → Desk Db Blocks → Desk Db Blocks
let_go h = record h { hand = take_stray none h.hand }

-- `account` is the provider's, `providers` the answer of the chain for a Merkle root, and `params_of`
-- `GetIPFSParams` (utils/ipfsParams.go).
module _ (b : Badger) (p : Ipfs) (m : Merkle) (d : Decoders) (attempt : Bytes → Attempt)
    (url_map : List (Bytes × Bytes)) (my_url : Bytes) (chunk_size : ℤ)
    (providers : Bytes → Option (List Bytes)) (params_of : Stray → p.Params) (account : Bytes) where
  open b use {Db}
  open p use {Blocks, Params}

  abbrev pub wanted : Stray → Wanted Params
  wanted s = record {
    merkle = s.merkle;
    owner = s.owner;
    start = s.start;
    proof_type = s.proof_type;
    params = params_of s;
    file_size = s.file_size;
  }

  -- The hand waits for its message, and holds the stray as long.
  unfoldable pub post_claim : Stray → Bytes → Option Bytes → Desk Db Blocks → Desk Db Blocks
  post_claim s chunk none h = let_go h
  post_claim s chunk (some proof) h =
      let (q, i) = add (claim_msg account s chunk proof) h.queue in
      record h { queue = q; awaits = some i }

  -- Whether the proof verifies is not looked at.
  unfoldable pub proved :
      Stray → Bytes → ProofError ⊎ (Bool × m.Proof) → Desk Db Blocks → Desk Db Blocks
  proved s chunk (inl e) h = let_go h
  proved s chunk (inr (valid, proof)) h = post_claim s chunk (m.marshal_proof proof) h

  unfoldable pub loaded : Stray → ReadError ⊎ (m.Tree × Bytes) → Desk Db Blocks → Desk Db Blocks
  loaded s (inl e) h = let_go h
  loaded s (inr (tree, chunk)) h =
      proved s chunk (generate_merkle_proof b p m tree (pos 0) chunk s.proof_type) h

  unfoldable pub claim : Stray → Desk Db Blocks → Desk Db Blocks
  claim s h =
      loaded s
        (get_file_tree_by_chunk b p m h.world s.merkle s.owner s.start (pos 0) chunk_size
          s.proof_type)
        h

  unfoldable pub after_download :
      Stray → World Db Blocks × Downloaded → Desk Db Blocks → Desk Db Blocks
  after_download s (w, downloaded) h = claim s (record h { world = w })
  after_download s (w, _) h = let_go (record h { world = w })

  unfoldable pub take_up : Stray → Option Bool → Desk Db Blocks → Desk Db Blocks
  take_up s none h = let_go h
  take_up s (some true) h = claim s h
  take_up s (some false) h =
      after_download s
        (download_file b p m d attempt url_map my_url chunk_size (providers s.merkle) (wanted s)
          h.world)
        h

  unfoldable pub with_stray : Option Stray → Desk Db Blocks → Desk Db Blocks
  with_stray none h = h
  with_stray (some s) h = take_up s (check_tree b p m h.world s.merkle s.owner s.start) h

  -- `wg.Wait()` is over when the counter of the message is 0.
  unfoldable pub by_wait : Option ℕ → Desk Db Blocks → Desk Db Blocks
  by_wait none h = if h.hand.running then with_stray h.hand.stray h else h
  by_wait (some i) h = if (h.queue.store i).wg == 0 then let_go (record h { awaits = none }) else h

  -- One round of the loop, or a look at the message that the hand waits for.
  unfoldable pub hand_round : Desk Db Blocks → Desk Db Blocks
  unfolding by_wait
  hand_round h = by_wait h.awaits h
