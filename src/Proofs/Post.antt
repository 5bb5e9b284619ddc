-- ===== src/Proofs/Post.antt =====
-- `PostProof` and `wrapPostProof` (proofs/proofs.go). The chain's data, and the gRPC codes of errors,
-- are read by parameters. `reply` is what the queue has made of the message when the wait for it is
-- over. A proof and an item that were generated are not nil.
pub mod Outcome
pub mod Posted
use sequoia.Prelude.{
  ℕ, ◌==◌, if◌then◌else◌, Bool, true, false, List, [], ◌∷◌, Option, none, some, ◌⊎◌, inl, inr, ltb,
  get_elem?,
}
use sequoia.Prelude.Int.{ℤ, pos, negsuc, eqb_ℤ, pos_part}
use sequoia.Prelude.Bytes.{Bytes}
use sequoia.Prelude.Bytes.Hex.{hex_decode}
use sequoia.FileSystem.Stores.{Badger, Ipfs, World}
use sequoia.FileSystem.Delete.{delete_file}
use sequoia.FileSystem.Read.{is_key_not_found}
use sequoia.Queue.Types.{Msg, post_proof, TxResponse, Message, Queue, index_of, error_of, res_of}
use sequoia.Queue.Add.{add}
use sequoia.Proofs.Generate.{
  ProofError, query_failed, chunk_failed, no_merkle_proof, not_verified, tree_not_valid,
  not_marshalled, Generated, generated, nothing, gen_failed,
}
use sequoia.Proofs.Pool.{Prover, dec}

abbrev pub code_not_found : ℕ
code_not_found = 5

abbrev pub code_unknown : ℕ
code_unknown = 2

-- The protobuf of the chain and the code of a gRPC error.
pub record Codec : Type 0 where
  pub tx_msg_data : Bytes → Option (List Bytes)
  pub post_response : Bytes → Option Bool
  pub error_code : Bytes → ℕ

pub data PostError : Type 0 where
  ungenerated : ProofError → PostError
  unposted : Bytes → PostError
  bad_hex bad_tx_data bad_response : PostError

-- How `PostProof` ends: with its error, or with an index out of range.
pub data Ended : Type 0 where
  ended : Option PostError → Ended
  crashed : Ended

-- The prover, the files and the queue.
pub record Host (Db Blocks : Type 0) : Type 0 where
  pub prover : Prover
  pub world : World Db Blocks
  pub queue : Queue

-- The file that is proved, and who proves it.
pub record Job : Type 0 where
  pub account : Bytes
  pub merkle : Bytes
  pub owner : Bytes
  pub start : ℤ

-- `NewMsgPostProof` of a generated proof.
abbrev pub proof_msg : Job → Bytes → Bytes → ℤ → Msg
proof_msg j item proof index = post_proof (record {
  creator = j.account;
  item = item;
  hash_list = proof;
  merkle = j.merkle;
  owner = j.owner;
  start = j.start;
  to_prove = index;
})

pub key_missing : ProofError → Bool
key_missing (chunk_failed e) = is_key_not_found e
key_missing (query_failed code) = false
key_missing no_merkle_proof = false
key_missing not_verified = false
key_missing tree_not_valid = false
key_missing not_marshalled = false

module _ (c : Codec) where
  pub read_response : Option Bool → Ended
  read_response none = ended (some bad_response)
  read_response (some success) = ended none

  pub response_at : Option Bytes → Ended
  unfolding read_response
  response_at none = crashed
  response_at (some d) = read_response (c.post_response d)

  pub read_data : ℤ → Option (List Bytes) → Ended
  unfolding response_at
  read_data index none = ended (some bad_tx_data)
  read_data index (some []) = ended none
  read_data index (some (d ∷ ds)) = response_at (get_elem? (d ∷ ds) (pos_part index))

  pub read_hex : ℤ → Option Bytes → Ended
  unfolding read_data
  read_hex index none = ended (some bad_hex)
  read_hex index (some raw) = read_data index (c.tx_msg_data raw)

  pub read_res : ℤ → Option TxResponse → Ended
  unfolding read_hex
  read_res index none = ended none
  read_res index (some r) =
      if r.code == 0 then read_hex index (hex_decode r.data_hex) else ended none

  -- After the wait.
  unfoldable pub read_reply : ℤ → Option Bytes → Option TxResponse → Ended
  unfolding read_res
  read_reply index (some e) res = ended (some (unposted e))
  read_reply index none res = read_res index res

-- `order` and `fuel` are those of `DeleteFile`.
module _ (b : Badger) (p : Ipfs) (order : List ℕ → List ℕ) (fuel : ℕ) (c : Codec) where
  open b use {Db}
  open p use {Blocks}

  -- `DeleteFile`, whose error is logged.
  pub dropped : Job → Host Db Blocks → Host Db Blocks
  unfolding delete_file
  dropped j h = record h { world = (delete_file b p order fuel h.world j.merkle j.owner j.start).0 }

  pub cleaned : Bool → Job → Host Db Blocks → Host Db Blocks
  unfolding dropped
  cleaned gone j h = if gone then dropped j h else h

  pub enqueue : Job → Message → Msg → Host Db Blocks → Host Db Blocks × Ended
  enqueue j reply msg h =
      let (q, id) = add msg h.queue in
      let h' = record h { queue = q } in
      if eqb_ℤ (index_of (q.store id)) (negsuc 0)
      then (h', ended none)
      else (h', read_reply c (index_of reply) (error_of reply) (res_of reply))

  pub finish_post : Job → Message → Generated → Host Db Blocks → Host Db Blocks × Ended
  unfolding cleaned key_missing enqueue
  finish_post j reply (gen_failed e) h = (cleaned (key_missing e) j h, ended (some (ungenerated e)))
  finish_post j reply nothing h = (h, ended none)
  finish_post j reply (generated proof item index) h =
      enqueue j reply (proof_msg j item proof index) h

  -- `generated` is what `GenerateProof` returned.
  unfoldable pub post_proof_of : Job → Generated → Message → Host Db Blocks → Host Db Blocks × Ended
  unfolding finish_post
  post_proof_of j gen reply h = finish_post j reply gen (record h { prover = dec h.prover })

  pub status_code : PostError → ℕ
  status_code (ungenerated (query_failed code)) = code
  status_code (unposted e) = c.error_code e
  status_code _ = code_unknown

  pub wrap_error : Job → Host Db Blocks → PostError → Host Db Blocks
  unfolding dropped status_code
  wrap_error j h e =
      if ltb code_not_found (status_code e)
      then h
      else if status_code e == code_not_found
      then dropped j h
      else h

  pub wrap_ended : Job → Host Db Blocks × Ended → Host Db Blocks
  unfolding wrap_error
  wrap_ended j (h, ended (some e)) = wrap_error j h e
  wrap_ended j (h, ended none) = h
  wrap_ended j (h, crashed) = h

  -- A crash ends the whole program, and nothing after it is modelled.
  unfoldable pub wrap_post_proof : Job → Generated → Message → Host Db Blocks → Host Db Blocks
  unfolding wrap_ended post_proof_of
  wrap_post_proof j gen reply h = wrap_ended j (post_proof_of j gen reply h)
