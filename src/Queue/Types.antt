-- ===== src/Queue/Types.antt =====
-- The state of the queue (queue/types.go), with the message objects on a store. A `*Message` is a
-- number, and what `Add` hands to its caller and what the queue holds are the same object.
use sequoia.Prelude.{ℕ, ◌==◌, if◌then◌else◌, Bool, List, Option, none}
use sequoia.Prelude.Int.{ℤ, pos}
use sequoia.Prelude.Bytes.{Bytes}
use sequoia.Config.Types.{RateLimitConfig}

-- `storageTypes.MsgPostProof`.
pub record PostProof : Type 0 where
  pub creator : Bytes
  pub item : Bytes
  pub hash_list : Bytes
  pub merkle : Bytes
  pub owner : Bytes
  pub start : ℤ
  pub to_prove : ℤ

-- `types.Msg`: what the queue asks of a message by a type switch. The text of another message
-- only tells messages apart.
pub data Msg : Type 0 where
  nil_msg : Msg
  post_proof : PostProof → Msg
  other_msg : Bytes → Msg

-- `types.TxResponse`, the fields that are read.
pub record TxResponse : Type 0 where
  pub code : ℕ
  pub raw_log : Bytes
  pub tx_hash : Bytes
  pub data_hex : Bytes

-- `wg` is the counter of the message's WaitGroup: a caller that waits goes on when it is 0.
pub record Message : Type 0 where
  pub msg : Msg
  pub wg : ℕ
  pub err : Option Bytes
  pub res : Option TxResponse
  pub msg_index : ℤ

pub record Queue : Type 0 where
  pub store : ℕ → Message
  pub next : ℕ
  pub messages : List ℕ
  pub processed : ℕ
  pub running : Bool
  pub interval : ℕ
  pub max_size_bytes : ℤ
  pub domain : Bytes
  pub limiter : RateLimitConfig

abbrev pub update : (ℕ → Message) → ℕ → Message → ℕ → Message
update f i m j = if j == i then m else f j

abbrev pub blank_message : Message
blank_message = record { msg = nil_msg; wg = 0; err = none; res = none; msg_index = pos 0 }

-- `(m *Message) Error`, `Res` and `Index`.
abbrev pub error_of : Message → Option Bytes
error_of m = m.err

abbrev pub res_of : Message → Option TxResponse
res_of m = m.res

abbrev pub index_of : Message → ℤ
index_of m = m.msg_index
