-- ===== src/Api/Uploads.antt =====
-- The upload handlers (`PostFileHandler` and `PostFileHandlerV2` of api/file_handler.go). What the chain
-- answers, the reply of the queue and the texts of errors are parameters. The state of a job is kept
-- as it is when the handler is done with it.
pub mod Handlers
pub mod Agreement
pub mod Mismatch
pub mod Proven
pub mod Retention
use sequoia.Prelude.{
  ℕ, suc, ◌==◌, if◌then◌else◌, Bool, true, false, not, ◌&&◌, List, [], ◌∷◌, ◌++◌, Option, none,
  some, ◌⊎◌, inl, inr, length,
}
use sequoia.Prelude.Int.{ℤ, pos, pos_part, eqb_ℤ}
use sequoia.Prelude.Bytes.{Bytes, bytes_equal, codes}
use sequoia.Prelude.Bytes.Hex.{hex_encode, hex_decode}
use sequoia.Prelude.Bytes.Decimal.{parse_int, format_int}
use sequoia.FileSystem.Stores.{Badger, Ipfs, Merkle, World}
use sequoia.FileSystem.Write.{
  WriteError, Written, wrote, write_failed, Tracker, write_file, write_file_with_progress,
}
use sequoia.Queue.Types.{Message}
use sequoia.Proofs.Generate.{Queries, Generated, generate_proof_for}
use sequoia.Proofs.Post.{Codec, Host, Job, post_proof_of}
use sequoia.Api.Multipart.{Form, FormError, Upload, content_of}

-- `storageTypes.UnifiedFile` as an upload reads it; `params` are the IPFS parameters of its note.
pub record ChainUpload (Params : Type 0) : Type 0 where
  pub merkle : Bytes
  pub proof_count : ℤ
  pub max_proofs : ℤ
  pub contains_prover : Bool
  pub file_size : ℤ
  pub proof_type : ℤ
  pub params : Params

-- `types.UploadResponse`.
pub record UploadResponse : Type 0 where
  pub merkle : Bytes
  pub owner : Bytes
  pub start : ℤ
  pub cid : Bytes

pub data UploadError : Type 0 where
  bad_form : FormError → UploadError
  bad_merkle bad_start bad_type not_on_chain merkle_differs cannot_claim size_differs : UploadError
  not_written : WriteError → UploadError

-- A status with an error, or the answer to a stored file.
pub data Response : Type 0 where
  failed : ℕ → UploadError → Response
  uploaded : UploadResponse → Response

-- The fields that both handlers read.
pub record Target : Type 0 where
  pub merkle : Bytes
  pub start : ℤ

-- What a handler meets: the file on the chain under a Merkle root, an owner and a start; and for
-- `PostProof`, the queries of the chain, the blocks of time since it was called, and what the queue
-- makes of its message.
pub record Outside (P : Type 0) : Type 0 where
  pub file : Bytes → Bytes → ℤ → Option (ChainUpload P)
  pub account : Bytes
  pub queries : Queries
  pub elapsed : ℤ
  pub reply : Message

abbrev with_start : Bytes → Option ℤ → UploadError ⊎ Target
with_start merkle none = inl bad_start
with_start merkle (some start) = inr (record { merkle = merkle; start = start })

abbrev with_merkle : Option Bytes → Bytes → UploadError ⊎ Target
with_merkle none start = inl bad_merkle
with_merkle (some merkle) start = with_start merkle (parse_int start)

unfoldable pub parse_target : Form → UploadError ⊎ Target
parse_target f = with_merkle (hex_decode f.merkle) f.start

abbrev as_type : Option ℤ → UploadError ⊎ ℤ
as_type none = inl bad_type
as_type (some t) = inr t

-- No type is the type 0.
unfoldable pub parse_type : Bytes → UploadError ⊎ ℤ
parse_type text = as_type (parse_int (if length text == 0 then codes "0" else text))

abbrev pub file_bytes : Option Upload → Bytes
file_bytes none = []
file_bytes (some u) = content_of u

-- The chain's file must be the one of the form, and must have room for the provider.
unfoldable pub check_chain :
    {P : Type 0} → Bytes → Option (ChainUpload P) → UploadError ⊎ ChainUpload P
check_chain text none = inl not_on_chain
check_chain text (some f) =
    if not (bytes_equal (hex_encode f.merkle) text)
    then inl merkle_differs
    else if eqb_ℤ f.proof_count f.max_proofs && not f.contains_prover
    then inl cannot_claim
    else inr f

-- The jobs by their ids, and the jobs that will be deleted in ten minutes.
pub record Jobs : Type 0 where
  pub states : List (Bytes × Tracker)
  pub expiring : List Bytes

unfoldable pub load : Bytes → List (Bytes × Tracker) → Option Tracker
load id [] = none
load id ((k, t) ∷ js) = if bytes_equal id k then some t else load id js

unfoldable pub delete : Bytes → List (Bytes × Tracker) → List (Bytes × Tracker)
delete id [] = []
delete id ((k, t) ∷ js) =
    let rest = delete id js in if bytes_equal id k then rest else (k, t) ∷ rest

abbrev pub store : Bytes → Tracker → List (Bytes × Tracker) → List (Bytes × Tracker)
store id t js = (id, t) ∷ delete id js

-- `ListJobsHandler`: how many jobs there are, and the jobs.
unfoldable pub list_jobs : Jobs → ℕ × List (Bytes × Tracker)
list_jobs js = (length js.states, js.states)

pub data Status : Type 0 where
  status_of : Tracker → Status
  no_job : ℕ → Status

abbrev known : Option Tracker → Status
known none = no_job 404
known (some t) = status_of t

-- `CheckUploadStatus`; `none` is a route without an id.
unfoldable pub check_upload_status : Option Bytes → Jobs → Status
check_upload_status none js = no_job 400
check_upload_status (some id) js = known (load id js.states)

-- The answer of the second handler: a status with an error, or the id of the job.
pub data Accepted : Type 0 where
  refused : ℕ → UploadError → Accepted
  accepted : Bytes → Accepted
