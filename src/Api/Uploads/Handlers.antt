-- ===== src/Api/Uploads/Handlers.antt =====
-- `PostFileHandler` and `PostFileHandlerV2` (api/file_handler.go), from the parsed form on and as a
-- whole. `order` and `fuel` are those of `DeleteFile`, and `text` is the text of an error.
use sequoia.Prelude.{
  ℕ, if◌then◌else◌, Bool, true, false, List, [], ◌∷◌, ◌++◌, Option, none, some, ◌⊎◌, inl, inr,
}
use sequoia.Prelude.Int.{ℤ, pos, eqb_ℤ}
use sequoia.Prelude.Bytes.{Bytes, codes}
use sequoia.Prelude.Bytes.Hex.{hex_encode}
use sequoia.Prelude.Bytes.Decimal.{format_int}
use sequoia.FileSystem.Stores.{Badger, Ipfs, Merkle, World}
use sequoia.FileSystem.Write.{
  WriteError, Written, wrote, write_failed, Tracker, write_file, write_file_with_progress,
}
use sequoia.Proofs.Generate.{generate_proof_for}
use sequoia.Proofs.Post.{Codec, Host, post_proof_of}
use sequoia.Api.Multipart.{Part, Form, FormError, Upload, close_upload, parse_form}
use sequoia.Seeker.Files.{reader_of}
use sequoia.Api.Uploads.{
  ChainUpload, UploadError, bad_form, not_on_chain, merkle_differs, cannot_claim, size_differs,
  not_written, Response, failed, uploaded, Target, Outside, parse_target, parse_type, file_bytes,
  check_chain, Jobs, store, Accepted, refused, accepted,
}

-- The deferred `Close`.
abbrev pub close_file : Option Upload → ℕ → ℕ
close_file none temps = temps
close_file (some u) temps = close_upload u temps

abbrev pub job_id : Merkle → Bytes → Bytes → ℤ → Bytes
job_id m merkle owner start = hex_encode (m.sha256 (merkle ++ (owner ++ format_int start)))

abbrev pub started : Target → Bytes → Tracker
started t owner = record {
  merkle = t.merkle;
  owner = owner;
  start = t.start;
  cid = [];
  progress = 10;
  status = codes "Started upload";
}

-- What the tracker says when the chain's file is refused; the other errors do not come up there.
pub refused_status : UploadError → Tracker → Tracker
refused_status not_on_chain tr = record tr { status = codes "Error: No such file on chain" }
refused_status merkle_differs tr = record tr {
  progress = 30;
  status = codes "Error: Merkle does not match";
}
refused_status cannot_claim tr = record tr { progress = 30; status = codes "Error: Can't claim" }
refused_status _ tr = tr

abbrev pub with_proofs : Tracker → Tracker
with_proofs tr = record tr { progress = 40; status = codes "Got proofs" }

abbrev pub expire : Bool → Bytes → List Bytes → List Bytes
expire true id ids = id ∷ ids
expire false id ids = ids

module _ (b : Badger) (p : Ipfs) (m : Merkle) (order : List ℕ → List ℕ) (fuel : ℕ) (c : Codec)
    (text : WriteError → Bytes) (chunk_size : ℤ) where
  open b use {Db}
  open p use {Blocks, Params}

  -- `PostProof`, whose error is not looked at.
  unfoldable pub post_upload : Outside Params → Bytes → Bytes → ℤ → Host Db Blocks → Host Db Blocks
  post_upload o merkle owner start h =
      (post_proof_of b p order fuel c
        (record { account = o.account; merkle = merkle; owner = owner; start = start })
        (generate_proof_for b p m o.queries h.world merkle owner start start o.elapsed chunk_size)
        o.reply h).0

  abbrev pub with_world : Host Db Blocks → World Db Blocks → Host Db Blocks
  with_world h w = record h { world = w }

  -- After the write: the size must be the chain's. The file stays on disk when it is not.
  unfoldable pub answer_written :
      Outside Params
      → Form
      → Target
      → ChainUpload Params
      → Host Db Blocks
      → World Db Blocks × Written
      → Host Db Blocks × Response
  answer_written o f t file h (w, write_failed e) = (with_world h w, failed 500 (not_written e))
  answer_written o f t file h (w, wrote size cid) =
      if eqb_ℤ (pos size) file.file_size
      then (
        post_upload o t.merkle f.sender t.start (with_world h w),
        uploaded (record {
          merkle = t.merkle;
          owner = f.sender;
          start = t.start;
          cid = p.cid_string cid;
        }),
      )
      else (with_world h w, failed 500 size_differs)

  unfoldable pub write_upload :
      Outside Params
      → Form
      → Target
      → ℤ
      → Host Db Blocks
      → UploadError ⊎ ChainUpload Params
      → Host Db Blocks × Response
  write_upload o f t proof_type h (inl e) = (h, failed 500 e)
  write_upload o f t proof_type h (inr file) = answer_written o f t file h (
      write_file b p m h.world (reader_of chunk_size (file_bytes f.file)) t.merkle f.sender t.start
        proof_type file.params)

  unfoldable pub upload_typed :
      Outside Params → Form → Target → Host Db Blocks → UploadError ⊎ ℤ → Host Db Blocks × Response
  upload_typed o f t h (inl e) = (h, failed 400 e)
  upload_typed o f t h (inr proof_type) =
      write_upload o f t proof_type h (check_chain f.merkle (o.file t.merkle f.sender t.start))

  unfoldable pub upload_target :
      Outside Params → Form → Host Db Blocks → UploadError ⊎ Target → Host Db Blocks × Response
  upload_target o f h (inl e) = (h, failed 400 e)
  upload_target o f h (inr t) = upload_typed o f t h (parse_type f.proof_type)

  pub answer_form :
      Outside Params → Host Db Blocks → (FormError ⊎ Form) × ℕ → (Host Db Blocks × Response) × ℕ
  answer_form o h (inl e, temps) = ((h, failed 400 (bad_form e)), temps)
  answer_form o h (inr f, temps) = (upload_target o f h (parse_target f), close_file f.file temps)

  -- The first handler; the number counts the temporary files.
  unfoldable pub post_file :
      Outside Params
      → Option (List Part × Bool)
      → Host Db Blocks
      → ℕ
      → (Host Db Blocks × Response) × ℕ
  unfolding answer_form
  post_file o request h temps = answer_form o h (parse_form request temps)

  -- After the write: the host, the tracker, and whether the job will be deleted.
  unfoldable pub job_written :
      Outside Params
      → Bytes
      → Target
      → ChainUpload Params
      → Host Db Blocks
      → World Db Blocks × Tracker × Written
      → Host Db Blocks × Tracker × Bool
  job_written o owner t file h (w, tr, write_failed e) = (
    with_world h w,
    record tr { status = codes "Error: Could not write file to disk " ++ text e },
    false,
  )
  job_written o owner t file h (w, tr, wrote size cid) =
      let tr' : Tracker = record tr { cid = p.cid_string cid } in
      if eqb_ℤ (pos size) file.file_size
      then (post_upload o t.merkle owner t.start (with_world h w), tr', true)
      else (with_world h w, tr', false)

  unfoldable pub job_checked :
      Outside Params
      → Form
      → Target
      → Host Db Blocks
      → Tracker
      → UploadError ⊎ ChainUpload Params
      → Host Db Blocks × Tracker × Bool
  unfolding refused_status
  job_checked o f t h tr (inl e) = (h, refused_status e tr, false)
  job_checked o f t h tr (inr file) = job_written o f.sender t file h (
      write_file_with_progress b p m h.world (with_proofs tr)
        (reader_of chunk_size (file_bytes f.file)) t.merkle f.sender t.start file.proof_type
        file.params)

  -- The job, which runs after the answer.
  unfoldable pub run_job :
      Outside Params → Form → Target → Host Db Blocks → Host Db Blocks × Tracker × Bool
  run_job o f t h =
      job_checked o f t h (started t f.sender)
        (check_chain f.merkle (o.file t.merkle f.sender t.start))

  abbrev pub keep_job :
      Bytes → Jobs → Host Db Blocks × Tracker × Bool → Host Db Blocks × Jobs × Accepted
  keep_job id js (h, tr, done) = (
    h,
    record { states = store id tr js.states; expiring = expire done id js.expiring },
    accepted id,
  )

  unfoldable pub accept_target :
      Outside Params
      → Form
      → Host Db Blocks
      → Jobs
      → UploadError ⊎ Target
      → Host Db Blocks × Jobs × Accepted
  accept_target o f h js (inl e) = (h, js, refused 400 e)
  accept_target o f h js (inr t) =
      keep_job (job_id m t.merkle f.sender t.start) js (run_job o f t h)

  pub accept_form :
      Outside Params
      → Host Db Blocks
      → Jobs
      → (FormError ⊎ Form) × ℕ
      → (Host Db Blocks × Jobs × Accepted) × ℕ
  accept_form o h js (inl e, temps) = ((h, js, refused 400 (bad_form e)), temps)
  accept_form o h js (inr f, temps) =
      (accept_target o f h js (parse_target f), close_file f.file temps)

  -- The second handler.
  unfoldable pub post_file_v2 :
      Outside Params
      → Option (List Part × Bool)
      → Host Db Blocks
      → Jobs
      → ℕ
      → (Host Db Blocks × Jobs × Accepted) × ℕ
  unfolding accept_form
  post_file_v2 o request h js temps = accept_form o h js (parse_form request temps)
